-- ===== src/Provisioner/Frame/Updates.antt =====
-- `applyPaths` of internal/provisioner/update.go and the key files of internal/credentials under a
-- view of the world that their calls keep.
use gcp_emulator_provisioner.Prelude.{ℕ, ◌++◌, refl, List, [], ◌∷◌, arith, Text}
use gcp_emulator_provisioner.Client.Resources.{FieldPath}
use gcp_emulator_provisioner.Client.Errors.{wrap, encoding_key, writing_key}
use gcp_emulator_provisioner.Credentials.{
  System, Key, key_bits, dir_mode, file_mode, generate, make_parent, write,
}
use gcp_emulator_provisioner.Provisioner.Effects.{Act, map_err, annotate, call, lift, ◌>>◌}
use gcp_emulator_provisioner.Provisioner.Update.{apply_each, split_batch, apply_paths}
use gcp_emulator_provisioner.Runtime.{Runtime}
use gcp_emulator_provisioner.Provisioner.Frame.{Keeps, Still, bind-Keeps}

module _ (rt : Runtime) {W V : Type 0} (view : W → V) (update : List FieldPath → Act W (Unit {0}))
    (note : FieldPath → Act W (Unit {0}))
    (updates : (mask : List FieldPath) → Keeps view (update mask))
    (notes : (p : FieldPath) → Keeps view (note p)) where
  apply_each-Keeps : (paths : List FieldPath) → Keeps view (apply_each rt update note paths)
  unfolding apply_each
  apply_each-Keeps [] s = refl
  apply_each-Keeps (p ∷ paths) s =
      let after = (update (p ∷ []) s).1 in
      ground (
        arith,
        updates (p ∷ []) s,
        apply_each-Keeps paths after,
        notes p after,
        apply_each-Keeps paths (note p after).1,
      )

  split_batch-Keeps : (paths : List FieldPath) → Keeps view (split_batch rt update note paths)
  unfolding split_batch
  split_batch-Keeps [] s = apply_each-Keeps [] s
  split_batch-Keeps (p ∷ []) s = notes p s
  split_batch-Keeps (p ∷ q ∷ paths) s = apply_each-Keeps (p ∷ q ∷ paths) s

  pub apply_paths-Keeps : (paths : List FieldPath) → Keeps view (apply_paths rt update note paths)
  unfolding apply_paths
  apply_paths-Keeps paths s =
      ground (arith, updates paths s, split_batch-Keeps paths (update paths s).1)

module _ {W V : Type 0} (view : W → V) (sys : System W) where
  pub generate-Keeps :
      (project_id account token_uri : Text)
      → ((bits : ℕ) → Still view (sys.generate_key bits))
      → Keeps view (generate sys project_id account token_uri)
  unfolding generate
  generate-Keeps project_id account token_uri still s = ground (arith, still key_bits s.world)

  make_parent-Keeps :
      (path : Text)
      → ((p : Text) (mode : ℕ) → Still view (sys.make_directories p mode))
      → Keeps view (make_parent sys path)
  unfolding make_parent
  make_parent-Keeps path still s = ground (arith, still (sys.dir path) dir_mode s.world)

  pub write-Keeps :
      (path : Text) (key : Key)
      → ((p : Text) (mode : ℕ) → Still view (sys.make_directories p mode))
      → ((p content : Text) (mode : ℕ) → Still view (sys.write_file p content mode))
      → Keeps view (write sys path key)
  unfolding write
  write-Keeps path key still writes =
      bind-Keeps view (lift (map_err (wrap encoding_key) (sys.encode_json key)))
        (λ encoded.
          make_parent sys path
          >> annotate (wrap (writing_key path))
              (call (sys.write_file path (encoded ++ 10 ∷ []) file_mode)))
        (λ s. refl)
        λ encoded.
          bind-Keeps view (make_parent sys path) _ (make_parent-Keeps path still)
            (λ _ s. writes path (encoded ++ 10 ∷ []) file_mode s.world)
