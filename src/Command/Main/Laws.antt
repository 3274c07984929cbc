-- ===== src/Command/Main/Laws.antt =====
-- Dry runs of the whole command, cmd/gcp-emulator-provisioner/main.go.
use gcp_emulator_provisioner.Prelude.{
  ◌≡◌, refl, Bool-cases, inl, inr, true, false, arith, Text, Result, ok, err,
}
use gcp_emulator_provisioner.Config.Load.{Sources}
use gcp_emulator_provisioner.Credentials.{System}
use gcp_emulator_provisioner.Provisioner.Effects.{Run}
use gcp_emulator_provisioner.Provisioner.Admin.{Method, PubSubAdmin, StorageAdmin}
use gcp_emulator_provisioner.Provisioner.Frame.{PubSubFrame, StorageFrame, SystemFrame}
use gcp_emulator_provisioner.Command.{valid_section, CommandError, Connection, resolve_dry_run}
use gcp_emulator_provisioner.Command.Keeps.{Connects, run_command-Keeps}
use gcp_emulator_provisioner.Command.Main.{
  Flags, exit_after, resolve_section, with_dry_run, with_section, main,
}
use gcp_emulator_provisioner.Runtime.{Runtime}

module _ (getenv : Text → Text) (version : Text) (rt : Runtime) (sources : Sources) {W : Type 0}
    (sys : System W) (connect_pubsub : Text → Text → Method W (Connection W (PubSubAdmin W)))
    (connect_storage : Text → Text → Method W (Connection W (StorageAdmin W)))
    (nil_pubsub : PubSubAdmin W) (nil_storage : StorageAdmin W)
    (system : SystemFrame (λ (w : W). w) true sys)
    (pubsub : (p h : Text) (w : W)
      → Connects (λ (w : W). w) (PubSubFrame (λ (w : W). w) true) w (connect_pubsub p h w))
    (storage : (p h : Text) (w : W)
      → Connects (λ (w : W). w) (StorageFrame (λ (w : W). w) true) w (connect_storage p h w)) where
  after_dry :
      (s : Run W) (r : Result CommandError (Unit {0}) × Run W)
      → r.1.world ≡ s.world
      → (exit_after r).state.world ≡ s.world
  after_dry s (ok done, t) h = h
  after_dry s (err e, t) h = h

  with_dry_run-dry :
      (section : Text) (s : Run W)
      → valid_section section ≡ true
      → (with_dry_run getenv version rt sources sys connect_pubsub connect_storage nil_pubsub
          nil_storage section s
          (ok true)).state.world
        ≡ s.world
  unfolding with_dry_run
  with_dry_run-dry section s valid = after_dry s _ (
      run_command-Keeps getenv rt sources (λ w. w) sys connect_pubsub connect_storage
        (record { dry_run = true; compare_create_only_bucket_attrs = false }) system pubsub storage
        section nil_pubsub nil_storage s valid)

  with_section-dry :
      (f : Flags) (s : Run W) (section : Text)
      → f.dry_run ≡ true
      → f.dry_run_set ≡ true
      → (with_section getenv version rt sources sys connect_pubsub connect_storage nil_pubsub
          nil_storage f s section).state.world
        ≡ s.world
  unfolding with_section resolve_dry_run
  with_section-dry f s section on passed = elim (Bool-cases (valid_section section)) [
    | inr bad ↦ rw bad refl
    | inl valid ↦ rw (valid, passed, on) (with_dry_run-dry section s valid)
  ]

  -- With the flag for a dry run passed as true, the command leaves the world as it was, whatever the
  -- other flags, the environment and the configuration are and however it exits, if the reads change
  -- nothing and closing what was connected leads back.
  pub main-dry :
      (f : Flags) (s : Run W)
      → f.dry_run ≡ true
      → f.dry_run_set ≡ true
      → (main getenv version rt sources sys connect_pubsub connect_storage nil_pubsub nil_storage f
          s).state.world
        ≡ s.world
  unfolding main
  main-dry f s on passed = ground (arith, with_section-dry f s (resolve_section getenv f.section))
