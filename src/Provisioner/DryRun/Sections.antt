-- ===== src/Provisioner/DryRun/Sections.antt =====
-- The whole run of internal/provisioner/provisioner.go under a dry run.
use gcp_emulator_provisioner.Prelude.{◌≡◌, true}
use gcp_emulator_provisioner.Config.Schema
use gcp_emulator_provisioner.Credentials.{System}
use gcp_emulator_provisioner.Provisioner.Effects.{Run}
use gcp_emulator_provisioner.Provisioner.Admin.{Options, PubSubAdmin, StorageAdmin}
use gcp_emulator_provisioner.Provisioner.Sections.{run}
use gcp_emulator_provisioner.Provisioner.Frame.Sections.{run-Keeps}
use gcp_emulator_provisioner.Provisioner.DryRun.{ReadsOnly, ReadsOnly-Frame}
use gcp_emulator_provisioner.Runtime.{Runtime}

module _ (rt : Runtime) {W : Type 0} (pubsub : PubSubAdmin W) (storage : StorageAdmin W)
    (sys : System W) (opts : Options) (reads : ReadsOnly pubsub storage sys)
    (dry : opts.dry_run ≡ true) where
  -- If the read-only calls change nothing, a run of any configuration with the option of a dry run
  -- ends, with or without an error, in the world that it started from.
  pub run-LeavesWorld :
      (cfg : Schema.Config) (s : Run W) → (run rt pubsub storage sys opts cfg s).1.world ≡ s.world
  run-LeavesWorld cfg s =
      run-Keeps rt (λ w. w) pubsub storage sys opts
        (ReadsOnly-Frame opts.dry_run pubsub storage sys reads dry) cfg s
