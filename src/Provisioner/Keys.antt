-- ===== src/Provisioner/Keys.antt =====
-- internal/provisioner/credentials.go: the key files of the configuration.
pub mod Stability
use gcp_emulator_provisioner.Prelude.{
  Bool, true, false, not, ◌&&◌, List, [], ◌∷◌, Text, ok, err, ◌==◌, if◌then◌else◌,
}
use gcp_emulator_provisioner.Config.Schema.{Credential}
use gcp_emulator_provisioner.Config.Strategy.{update, effective_credential_strategy}
use gcp_emulator_provisioner.Client.Errors.{wrap, checking_path, writing_credential, is_not_exist}
use gcp_emulator_provisioner.Credentials.{System, or_default, generate, write}
use gcp_emulator_provisioner.Provisioner.Effects.{
  Act, pure, raise, call, attempt, write_log, annotate, ◌>>=◌, ◌>>◌, credential, skipping,
  would_write, would_replace, wrote,
}

module _ {W : Type 0} (sys : System W) where
  unfoldable pub file_exists : Text → Act W Bool
  file_exists path = do
    r ← attempt (call (sys.stat path))
    (elim r [
      | ok _ ↦ pure true
      | err e ↦ if is_not_exist e then pure false else raise (wrap (checking_path path) e)
    ])

  -- What follows when the file is to be written
  unfoldable pub write_credential : Bool → Text → Credential → Bool → Act W (Unit {0})
  write_credential dry_run project_id cred exists =
      if dry_run
      then write_log (if exists then would_replace cred.path else would_write cred.path)
      else (do
        key ← generate sys project_id (or_default cred.account) cred.token_uri
        write sys cred.path key
        write_log (wrote cred.path))

  unfoldable pub ensure_credential : Bool → Text → Credential → Text → Act W (Unit {0})
  ensure_credential dry_run project_id cred strategy = do
    exists ← file_exists cred.path
    (if exists && not (strategy == update)
        then write_log (skipping credential cred.path)
        else write_credential dry_run project_id cred exists)

  unfoldable pub provision_credentials : Bool → Text → List Credential → Act W (Unit {0})
  provision_credentials dry_run project_id [] = pure tt
  provision_credentials dry_run project_id (cred ∷ creds) = do
    annotate (wrap (writing_credential cred.path))
        (ensure_credential dry_run project_id cred (effective_credential_strategy cred.strategy))
    provision_credentials dry_run project_id creds
