-- ===== src/Provisioner/Update.antt =====
-- `applyPaths` of internal/provisioner/update.go.
pub mod Masks
pub mod Laws
pub mod Faults
use gcp_emulator_provisioner.Prelude.{List, [], ◌∷◌, ok, err, Bool, true, false, if◌then◌else◌}
use gcp_emulator_provisioner.Client.Resources.{FieldPath}
use gcp_emulator_provisioner.Client.Errors.{Error, is_unsupported_field}
use gcp_emulator_provisioner.Provisioner.Effects.{Act, pure, raise, attempt, ◌>>=◌, ◌>>◌}
use gcp_emulator_provisioner.Runtime.{Runtime}

module _ (rt : Runtime) {W : Type 0} where
  module _ (update : List FieldPath → Act W (Unit {0}))
      (on_unsupported : FieldPath → Act W (Unit {0})) where
    -- The loop that sends each path on its own
    unfoldable pub apply_each : List FieldPath → Act W (Unit {0})
    apply_each [] = pure tt
    apply_each (path ∷ paths) = do
      let rest = apply_each paths
      r ← attempt (update (path ∷ []))
      (elim r [
        | ok _ ↦ rest
        | err e ↦ if is_unsupported_field rt e then (on_unsupported path >> rest) else raise e
      ])

    -- A refused batch of one path has nothing left to split.
    unfoldable pub split_batch : List FieldPath → Act W (Unit {0})
    unfolding apply_each
    split_batch (path ∷ []) = on_unsupported path
    split_batch paths = apply_each paths

    unfoldable pub apply_paths : List FieldPath → Act W (Unit {0})
    unfolding split_batch
    apply_paths paths = do
      r ← attempt (update paths)
      (elim r [
        | ok _ ↦ pure tt
        | err e ↦ if is_unsupported_field rt e then split_batch paths else raise e
      ])
