-- ===== src/Client/Endpoint/Laws.antt =====
-- The form of the address that `storageEndpoint` of internal/client/storage.go returns.
use mathlib.Core.List.{append_assoc}
use gcp_emulator_provisioner.Prelude.{
  ◌≡◌, refl, ◌∙◌, ap, true, Bool-cases, inl, inr, [], ◌∷◌, ◌++◌, arith, Text, codes, ◌==◌,
}
use gcp_emulator_provisioner.Client.Endpoint.{
  has_suffix, complete_path, trim_slash, with_scheme, storage_endpoint,
}

has_suffix-append : (s p : Text) → has_suffix s p ≡ true → (front : Text) × (s ≡ front ++ p)
unfolding has_suffix
has_suffix-append [] p h = ([], ground arith)
has_suffix-append (c ∷ s) p h = elim (Bool-cases ((c ∷ s) == p)) [
  | inl same ↦ ([], ground arith)
  | inr differ ↦
      let (front, e) = has_suffix-append s p (ground arith) in
      (c ∷ front, ap (λ (t : Text). c ∷ t) e)
]

complete_path-append :
    (host : Text) → (base : Text) × (complete_path host ≡ base ++ codes "/storage/v1/")
unfolding complete_path
complete_path-append host = elim (Bool-cases (has_suffix host (codes "/storage/v1"))) [
  | inl ends ↦
      let (base, e) = has_suffix-append host (codes "/storage/v1") ends in
      (
        base,
        rw ends (
            ap (λ (t : Text). t ++ codes "/") e
            ∙ append_assoc base (codes "/storage/v1") (codes "/")),
      )
  | inr plain ↦ (host, rw plain refl)
]

-- Whatever the host is, with or without a scheme, a slash at its end or the path of the service, the
-- address ends in the path "/storage/v1/".
storage_endpoint-append :
    (host : Text) → (base : Text) × (storage_endpoint host ≡ base ++ codes "/storage/v1/")
unfolding storage_endpoint
storage_endpoint-append host = complete_path-append (trim_slash (with_scheme host))
