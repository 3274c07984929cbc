-- ===== src/Command.antt =====
-- cmd/gcp-emulator-provisioner/main.go: the settings from flags and environment, and `run`. The
-- parsing of the command line is left out.
pub mod Clients
pub mod Keeps
pub mod Connect
pub mod Main
mod Tests
use gcp_emulator_provisioner.Prelude.{
  Bool, true, false, not, ◌&&◌, ◌||◌, Option, none, some, List, [], ◌∷◌, ◌++◌, Text, codes, Result,
  ok, err, ◌==◌, is_empty, if◌then◌else◌,
}
use gcp_emulator_provisioner.Config.Schema.{Config, Topic, Bucket}
use gcp_emulator_provisioner.Config.Load.{Sources, LoadError, load}
use gcp_emulator_provisioner.Client.Errors.{Error}
use gcp_emulator_provisioner.Credentials.{System}
use gcp_emulator_provisioner.Provisioner.Effects.{Run, Act, Event, unclosed}
use gcp_emulator_provisioner.Provisioner.Admin.{Options, Method, PubSubAdmin, StorageAdmin}
use gcp_emulator_provisioner.Provisioner.Keys.{provision_credentials}
use gcp_emulator_provisioner.Provisioner.Sections.{provision_pubsub, provision_storage, run}
use gcp_emulator_provisioner.Runtime.{Runtime}

abbrev pub section_all : Text
section_all = codes "all"

abbrev pub section_pubsub : Text
section_pubsub = codes "pubsub"

abbrev pub section_storage : Text
section_storage = codes "storage"

abbrev pub section_credentials : Text
section_credentials = codes "credentials"

-- A look-up in the map `validSections`
unfoldable pub valid_section : Text → Bool
valid_section s =
    s == section_all || s == section_pubsub || s == section_storage || s == section_credentials

unfoldable pub wants : Text → Text → Bool
wants section want = section == section_all || section == want

pub data CommandError : Type 0 where
  loading_configuration : LoadError → CommandError
  project_id_required : CommandError
  invalid_dry_run : Text → CommandError
  connecting_pubsub connecting_storage : Error → CommandError
  provisioning : Error → CommandError

abbrev pub map_command :
    {A : Type 0} → (Error → CommandError) → Result Error A → Result CommandError A
map_command f (ok a) = ok a
map_command f (err e) = err (f e)

-- `strconv.ParseBool`
unfoldable pub parse_bool : Text → Option Bool
parse_bool s =
    if s == codes "1"
      || s == codes "t"
      || s == codes "T"
      || s == codes "true"
      || s == codes "TRUE"
      || s == codes "True"
    then some true
    else if s == codes "0"
        || s == codes "f"
        || s == codes "F"
        || s == codes "false"
        || s == codes "FALSE"
        || s == codes "False"
    then some false
    else none

-- What `run` keeps of a client: the interface that it passes on, and the closing, with the errors
-- that it returns
pub record Connection (W A : Type 0) : Type 0 where
  pub admin : A
  pub close : W → List Error × W

-- An interface that stays `nil`; nothing is deferred for it.
abbrev pub unconnected : {W A : Type 0} → A → Connection W A
unconnected nil = record { admin = nil; close = λ w. ([], w) }

-- A closing that failed is a line in the log.
abbrev pub closing_lines : Text → List Error → List Event
closing_lines service [] = []
closing_lines service (e ∷ errors) = unclosed service ∷ []

unfoldable pub close_and_log : {W A : Type 0} → Text → Connection W A → Run W → Run W
close_and_log service c s =
    let (errors, w) = c.close s.world in
    record { world = w; log = s.log ++ closing_lines service errors }

-- The topics or buckets of the configuration
abbrev pub nothing : {A : Type 0} → List A → Bool
nothing [] = true
nothing (x ∷ xs) = false

module _ (getenv : Text → Text) where
  unfoldable pub env_or_default : Text → Text → Text
  env_or_default key default_val = if is_empty (getenv key) then default_val else getenv key

  unfoldable pub resolve_dry_run : Bool → Bool → Result CommandError Bool
  resolve_dry_run flag_value true = ok flag_value
  resolve_dry_run flag_value false =
      if is_empty (getenv (codes "DRY_RUN"))
      then ok false
      else (elim (parse_bool (getenv (codes "DRY_RUN"))) [
        | none ↦ err (invalid_dry_run (getenv (codes "DRY_RUN")))
        | some b ↦ ok b
      ])

  unfoldable pub compare_create_only_bucket_attrs : Bool
  compare_create_only_bucket_attrs = is_empty (getenv (codes "STORAGE_EMULATOR_HOST"))

  unfoldable pub resolve_project_id : Config → Result CommandError Text
  resolve_project_id cfg =
      if not (is_empty (getenv (codes "GCP_PROJECT_ID")))
      then ok (getenv (codes "GCP_PROJECT_ID"))
      else if not (is_empty cfg.project_id)
      then ok cfg.project_id
      else err project_id_required

  module _ (rt : Runtime) (sources : Sources) {W : Type 0} (sys : System W)
      (connect_pubsub : Text → Text → Method W (Connection W (PubSubAdmin W)))
      (connect_storage : Text → Text → Method W (Connection W (StorageAdmin W))) where
    -- The switch over the sections
    unfoldable pub provision :
        Text → Options → Config → PubSubAdmin W → StorageAdmin W → Act W (Unit {0})
    provision section opts cfg pubsub storage =
        if section == section_pubsub
        then provision_pubsub rt pubsub opts cfg
        else if section == section_storage
        then provision_storage rt storage opts cfg
        else if section == section_credentials
        then provision_credentials sys opts.dry_run cfg.project_id cfg.credentials
        else run rt pubsub storage sys opts cfg

    -- The interfaces stay `nil` where a section has no part; their calls are the last arguments.
    module _ (nil_pubsub : PubSubAdmin W) (nil_storage : StorageAdmin W) where
      unfoldable pub pubsub_admin :
          Text → Config → W → Result CommandError (Connection W (PubSubAdmin W)) × W
      pubsub_admin section cfg w =
          if wants section section_pubsub && not (nothing cfg.pubsub.topics)
          then (let (r, w') =
                connect_pubsub cfg.project_id (getenv (codes "PUBSUB_EMULATOR_HOST")) w in
              (map_command connecting_pubsub r, w'))
          else (ok (unconnected nil_pubsub), w)

      unfoldable pub storage_admin :
          Text → Config → W → Result CommandError (Connection W (StorageAdmin W)) × W
      storage_admin section cfg w =
          if wants section section_storage && not (nothing cfg.storage.buckets)
          then (let (r, w') =
                connect_storage cfg.project_id (getenv (codes "STORAGE_EMULATOR_HOST")) w in
              (map_command connecting_storage r, w'))
          else (ok (unconnected nil_storage), w)

      -- The options with the flag that is set when a storage client was connected
      unfoldable pub storage_options : Text → Config → Options → Options
      storage_options section cfg opts =
          if wants section section_storage && not (nothing cfg.storage.buckets)
          then record opts { compare_create_only_bucket_attrs = compare_create_only_bucket_attrs }
          else opts

      unfoldable pub with_storage :
          Text
          → Options
          → Config
          → PubSubAdmin W
          → Run W
          → Result CommandError (Connection W (StorageAdmin W)) × W
          → Result CommandError (Unit {0}) × Run W
      with_storage section opts cfg pubsub s (err e, w) = (err e, record s { world = w })
      with_storage section opts cfg pubsub s (ok storage, w) =
          let (r, s') =
            provision section (storage_options section cfg opts) cfg pubsub storage.admin
              (record s { world = w }) in
          (map_command provisioning r, close_and_log (codes "Cloud Storage") storage s')

      unfoldable pub with_pubsub :
          Text
          → Options
          → Config
          → Run W
          → Result CommandError (Connection W (PubSubAdmin W)) × W
          → Result CommandError (Unit {0}) × Run W
      with_pubsub section opts cfg s (err e, w) = (err e, record s { world = w })
      with_pubsub section opts cfg s (ok pubsub, w) =
          let (r, s') =
            with_storage section opts cfg pubsub.admin s (storage_admin section cfg w) in
          (r, close_and_log (codes "Pub/Sub") pubsub s')

      unfoldable pub with_project :
          Text
          → Options
          → Config
          → Run W
          → Result CommandError Text
          → Result CommandError (Unit {0}) × Run W
      with_project section opts cfg s (err e) = (err e, s)
      with_project section opts cfg s (ok project_id) =
          let resolved = record cfg { project_id = project_id } in
          with_pubsub section opts resolved s (pubsub_admin section resolved s.world)

      unfoldable pub with_config :
          Text → Options → Run W → Result LoadError Config → Result CommandError (Unit {0}) × Run W
      with_config section opts s (err e) = (err (loading_configuration e), s)
      with_config section opts s (ok cfg) = with_project section opts cfg s (resolve_project_id cfg)

      unfoldable pub run_command : Text → Options → Run W → Result CommandError (Unit {0}) × Run W
      run_command section opts s =
          with_config section opts s
            (load rt sources (env_or_default (codes "GCP_CONFIG_PATH") (codes "./config.yaml")))
