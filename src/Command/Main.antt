-- ===== src/Command/Main.antt =====
-- `main` of cmd/gcp-emulator-provisioner/main.go: the settings, the run and the exit status. The
-- command line is read already; the lines of the log that name no resource are left out.
pub mod Laws
use gcp_emulator_provisioner.Prelude.{
  ℕ, ◌≡◌, refl, ◌∙◌, ap, Bool, Bool-cases, inl, inr, true, false, not, [], Text, codes, Result, ok,
  err, is_empty, if◌then◌else◌,
}
use gcp_emulator_provisioner.Config.Load.{Sources}
use gcp_emulator_provisioner.Credentials.{System}
use gcp_emulator_provisioner.Provisioner.Effects.{Run}
use gcp_emulator_provisioner.Provisioner.Admin.{Options, Method, PubSubAdmin, StorageAdmin}
use gcp_emulator_provisioner.Provisioner.Frame.{PubSubFrame, StorageFrame, SystemFrame}
use gcp_emulator_provisioner.Command.{
  section_all, valid_section, CommandError, Connection, env_or_default, resolve_dry_run,
  run_command,
}
use gcp_emulator_provisioner.Command.Keeps.{Connects, run_command-Keeps}
use gcp_emulator_provisioner.Logging.{Level, level_of}
use gcp_emulator_provisioner.Runtime.{Runtime}

pub record Flags : Type 0 where
  pub section : Text
  pub dry_run : Bool
  -- whether the flag was passed
  pub dry_run_set : Bool
  pub show_version : Bool

-- What the command prints, its exit status and what it leaves
pub record Exit (W : Type 0) : Type 0 where
  pub printed : Text
  pub status : ℕ
  pub state : Run W

abbrev pub exit : {W : Type 0} → ℕ → Run W → Exit W
exit n s = record { printed = []; status = n; state = s }

abbrev pub exit_after : {W : Type 0} → Result CommandError (Unit {0}) × Run W → Exit W
exit_after (ok done, s) = exit 0 s
exit_after (err e, s) = exit 1 s

module _ (getenv : Text → Text) where
  unfoldable pub setup_logging : Level
  unfolding level_of env_or_default
  setup_logging = level_of (env_or_default getenv (codes "LOG_LEVEL") (codes "info"))

  unfoldable pub resolve_section : Text → Text
  unfolding env_or_default
  resolve_section flag_value =
      if is_empty flag_value
      then env_or_default getenv (codes "GCP_SECTION") section_all
      else flag_value

  module _ (version : Text) (rt : Runtime) (sources : Sources) {W : Type 0} (sys : System W)
      (connect_pubsub : Text → Text → Method W (Connection W (PubSubAdmin W)))
      (connect_storage : Text → Text → Method W (Connection W (StorageAdmin W)))
      (nil_pubsub : PubSubAdmin W) (nil_storage : StorageAdmin W) where
    unfoldable pub with_dry_run : Text → Run W → Result CommandError Bool → Exit W
    with_dry_run section s (err e) = exit 1 s
    with_dry_run section s (ok dry_run) = exit_after (
        run_command getenv rt sources sys connect_pubsub connect_storage nil_pubsub nil_storage
          section (record { dry_run = dry_run; compare_create_only_bucket_attrs = false }) s)

    unfoldable pub with_section : Flags → Run W → Text → Exit W
    with_section f s section =
        if not (valid_section section)
        then exit 1 s
        else with_dry_run section s (resolve_dry_run getenv f.dry_run f.dry_run_set)

    unfoldable pub main : Flags → Run W → Exit W
    main f s =
        if f.show_version
        then record { printed = version; status = 0; state = s }
        else with_section f s (resolve_section f.section)
