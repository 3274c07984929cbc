-- ===== src/Provisioner/Keys/Stability.antt =====
-- Runs of `ensureCredential` of internal/provisioner/credentials.go over a file system.
use gcp_emulator_provisioner.Prelude.{
  ◌≡◌, refl, ap, Bool, false, Option-cases, inl, inr, codes, Option, none, some, arith, Text, ok,
  err, Result, ◌==◌, is_empty, [], ◌∷◌, ◌++◌, ℕ,
}
use gcp_emulator_provisioner.Config.Schema.{Credential}
use gcp_emulator_provisioner.Config.Strategy.{update}
use gcp_emulator_provisioner.Client.Errors.{Error, not_exist, is_not_exist}
use gcp_emulator_provisioner.Credentials.{
  Key, System, generate, make_parent, write, or_default, build_key,
}
use gcp_emulator_provisioner.Provisioner.Effects.{Act, Run, skipping, credential}
use gcp_emulator_provisioner.Provisioner.Service.{Table, at-put_self}
use gcp_emulator_provisioner.Provisioner.Keys.{file_exists, write_credential, ensure_credential}

abbrev pub stat_answer : {W : Type 0} → Text → W → Option Text → Result Error (Unit {0}) × W
stat_answer why w none = (err (not_exist why), w)
stat_answer why w (some c) = (ok tt, w)

-- A file system whose calls succeed: a look-up finds the files that are there, and a write leaves
-- the file with its content.
pub record KeepsFiles {W : Type 0} (sys : System W) (files : Table W Text) : Type 0 where
  pub stat : (p : Text) (w : W) → (why : Text) × (sys.stat p w ≡ stat_answer why w (files.at w p))
  pub write : (p c : Text) (mode : ℕ) (w : W) → sys.write_file p c mode w ≡ (ok tt, files.put p c w)
  pub make : (d : Text) (mode : ℕ) (w : W) → (sys.make_directories d mode w).0 ≡ ok tt
  pub generate : (bits : ℕ) (w : W) → (k : Text) × ((sys.generate_key bits w).0 ≡ ok k)
  pub marshal : (k : Text) → (der : Text) × (sys.marshal_pkcs8 k ≡ ok der)
  pub encode : (k : Key) → (json : Text) × (sys.encode_json k ≡ ok json)

module _ {W : Type 0} (sys : System W) (files : Table W Text) (keeps : KeepsFiles sys files) where
  make_parent-ok : (path : Text) (s : Run W) → (make_parent sys path s).0 ≡ ok tt
  unfolding make_parent
  make_parent-ok path s = ground (arith, keeps.make (sys.dir path) 0o755 s.world)

  -- The action returns no error and leaves a file under the path.
  abbrev Writes : Act W (Unit {0}) → Text → Run W → Type 0
  Writes m path s = ((m s).0 ≡ ok tt) × ((c : Text) × (files.at (m s).1.world path ≡ some c))

  write-Writes : (path : Text) (key : Key) (s : Run W) → Writes (write sys path key) path s
  unfolding write
  write-Writes path key s =
      let (json, e) = keeps.encode key in
      rw (e, make_parent-ok path s, keeps.write)
        (refl, (json ++ 10 ∷ [], at-put_self files path (json ++ 10 ∷ []) _))

  generate-ok :
      (project_id account token_uri : Text) (s : Run W)
      → is_empty project_id ≡ false
      → (key : Key) × ((generate sys project_id account token_uri s).0 ≡ ok key)
  unfolding generate
  generate-ok project_id account token_uri s named =
      let (k, e) = keeps.generate 2048 s.world in
      let (der, f) = keeps.marshal k in
      (
        build_key project_id (or_default account) token_uri
            (sys.encode_pem (codes "PRIVATE KEY") der),
        rw (named, e, f) refl,
      )

  write_credential-Writes :
      (project_id : Text) (cred : Credential) (exists : Bool) (s : Run W)
      → is_empty project_id ≡ false
      → Writes (write_credential sys false project_id cred exists) cred.path s
  unfolding write_credential
  write_credential-Writes project_id cred exists s named =
      let (key, e) = generate-ok project_id (or_default cred.account) cred.token_uri s named in
      let after = (generate sys project_id (or_default cred.account) cred.token_uri s).1 in
      let (fine, there) = write-Writes cred.path key after in rw (e, fine) (refl, there)

  module _ (project_id : Text) (cred : Credential) (strategy : Text)
      (named : is_empty project_id ≡ false) (keeping : (strategy == update) ≡ false) where
    ensure_there :
        (s : Run W) (c : Text)
        → files.at s.world cred.path ≡ some c
        → ensure_credential sys false project_id cred strategy s
          ≡ (ok tt, record s { log = s.log ++ (skipping credential cred.path ∷ []) })
    unfolding ensure_credential file_exists
    ensure_there s c h = let (why, e) = keeps.stat cred.path s.world in rw (e, h, keeping) refl

    ensure_missing :
        (s : Run W)
        → files.at s.world cred.path ≡ none
        → Writes (ensure_credential sys false project_id cred strategy) cred.path s
    unfolding ensure_credential file_exists is_not_exist
    ensure_missing s h =
        let (why, e) = keeps.stat cred.path s.world in
        rw (e, h) (write_credential-Writes project_id cred false s named)

    -- With a project id, a strategy other than "update" and a file system whose calls succeed, a
    -- run that applies changes returns no error and leaves a key file; one that was there before
    -- keeps its content. A second run returns no error and changes nothing.
    pub ensure_credential_twice :
        (s : Run W)
        → let first = ensure_credential sys false project_id cred strategy s in
          let second = ensure_credential sys false project_id cred strategy first.1 in
          (first.0 ≡ ok tt)
          × ((c : Text) × (files.at first.1.world cred.path ≡ some c))
          × ((old : Text)
              → files.at s.world cred.path ≡ some old
              → files.at first.1.world cred.path ≡ some old)
          × (second.0 ≡ ok tt)
          × (second.1.world ≡ first.1.world)
    ensure_credential_twice s = elim (Option-cases (files.at s.world cred.path)) [
      | inl gone ↦
          let first = ensure_credential sys false project_id cred strategy s in
          let (fine, (c, there)) = ensure_missing s gone in
          let again = ensure_there first.1 c there in
          (
            fine,
            (c, there),
            (λ old h. absurd (cc (gone, h))),
            ap (λ r. r.0) again,
            ap (λ r. r.1.world) again,
          )
      | inr (c, h) ↦
          let again =
            ensure_there (record s { log = s.log ++ (skipping credential cred.path ∷ []) }) c h in
          rw (ensure_there s c h)
            (refl, (c, h), (λ old e. e), ap (λ r. r.0) again, ap (λ r. r.1.world) again)
    ]
