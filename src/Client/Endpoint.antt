-- ===== src/Client/Endpoint.antt =====
-- `storageEndpoint` of internal/client/storage.go.
pub mod Laws
use gcp_emulator_provisioner.Prelude.{
  Bool, true, false, Option, none, some, [], ◌∷◌, ◌++◌, Text, codes, contains_text, ◌==◌,
  if◌then◌else◌, ◌≡◌, refl, text_dec, has_prefix,
}

-- `strings.HasSuffix`, by a look at every end of the text
unfoldable pub has_suffix : Text → Text → Bool
has_suffix [] p = [] == p
has_suffix (c ∷ s) p = if (c ∷ s) == p then true else has_suffix s p

-- `strings.TrimSuffix(host, "/")`
unfoldable pub trim_slash : Text → Text
trim_slash [] = []
trim_slash (c ∷ s) = if (c ∷ s) == codes "/" then [] else c ∷ trim_slash s

unfoldable pub with_scheme : Text → Text
with_scheme host = if contains_text host (codes "://") then host else codes "http://" ++ host

unfoldable pub complete_path : Text → Text
complete_path host =
    if has_suffix host (codes "/storage/v1")
    then host ++ codes "/"
    else host ++ codes "/storage/v1/"

unfoldable pub storage_endpoint : Text → Text
storage_endpoint host = complete_path (trim_slash (with_scheme host))
