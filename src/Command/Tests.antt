-- ===== src/Command/Tests.antt =====
-- The theorems on the command at concrete data.
use gcp_emulator_provisioner.Prelude.{
  ℕ, ◌≡◌, refl, true, false, none, [], Text, codes, ok, err, text_dec,
}
use gcp_emulator_provisioner.Config.Load.{Sources}
use gcp_emulator_provisioner.Client.Errors.{plain}
use gcp_emulator_provisioner.Provisioner.Effects.{Run}
use gcp_emulator_provisioner.Provisioner.Admin.{PubSubAdmin, StorageAdmin}
use gcp_emulator_provisioner.Provisioner.Tests.Worlds.{
  World, emulator, storage_server, system, empty_world, applying, emulator-ReadsOnly,
}
use gcp_emulator_provisioner.Client.PubSub
use gcp_emulator_provisioner.Client.Storage
use gcp_emulator_provisioner.Client.Samples.{
  plain_durations, refusing_client, counting_library, connections, counting_library_counts,
  refusing_storage, refusing_api_quiet, counting_storage_library, no_deadline,
}
use gcp_emulator_provisioner.Credentials.{System}
use gcp_emulator_provisioner.Provisioner.Frame.{SystemFrame, Frame}
use gcp_emulator_provisioner.Provisioner.DryRun.{ReadsOnly-Frame}
use gcp_emulator_provisioner.Command.Connect.{
  connect_pubsub_admin, connect_storage_admin, run_command-connections,
}
use gcp_emulator_provisioner.Command.Main.{Flags, main}
use gcp_emulator_provisioner.Command.Main.Laws.{main-dry}
use gcp_emulator_provisioner.Command.{
  unconnected, section_all, section_storage, valid_section, run_command,
}
use gcp_emulator_provisioner.Command.Clients.{run_command_unset}
use gcp_emulator_provisioner.Samples.{plain_runtime, shop}

abbrev broken_pubsub : PubSubAdmin World
broken_pubsub = record {
  get_topic = λ n w. (err (plain (codes "nil")), w);
  create_topic = λ t w. (err (plain (codes "nil")), w);
  update_topic = λ t mask w. (err (plain (codes "nil")), w);
  get_subscription = λ n w. (err (plain (codes "nil")), w);
  create_subscription = λ d w. (err (plain (codes "nil")), w);
  update_subscription = λ d mask w. (err (plain (codes "nil")), w);
}

abbrev broken_storage : StorageAdmin World
broken_storage = record {
  get_bucket = λ n w. (err (plain (codes "nil")), w);
  create_bucket = λ b w. (err (plain (codes "nil")), w);
  set_versioning = λ n v w. (err (plain (codes "nil")), w);
}

abbrev shop_sources : Sources
shop_sources = record { read_file = λ p. ok p; unmarshal = λ t. ok shop; lookup_env = λ n. none }

abbrev no_environment : Text → Text
no_environment key = []

abbrev fresh : Run World
fresh = record { world = empty_world; log = [] }

storage_valid : valid_section section_storage ≡ true
unfolding valid_section text_dec
storage_valid = refl

run_command_unset_example :
    run_command no_environment plain_runtime shop_sources system
      (λ p h w. (ok (unconnected emulator), w))
      (λ p h w. (ok (unconnected storage_server), w))
      emulator
      storage_server
      section_storage
      applying
      fresh
    ≡ run_command no_environment plain_runtime shop_sources system
        (λ p h w. (ok (unconnected emulator), w))
        (λ p h w. (ok (unconnected storage_server), w))
        broken_pubsub
        broken_storage
        section_storage
        applying
        fresh
run_command_unset_example =
    run_command_unset no_environment plain_runtime shop_sources system
      (λ p h w. (ok (unconnected emulator), w)) (λ p h w. (ok (unconnected storage_server), w))
      emulator broken_pubsub storage_server broken_storage section_storage applying storage_valid
      fresh

-- An operating system over the number of open connections
abbrev idle_system : System ℕ
idle_system = record {
  stat = λ p w. (ok tt, w);
  dir = λ p. codes ".";
  make_directories = λ p m w. (ok tt, w);
  write_file = λ p c m w. (ok tt, w);
  generate_key = λ bits w. (ok (codes "key"), w);
  marshal_pkcs8 = λ k. ok k;
  encode_pem = λ t d. d;
  encode_json = λ k. ok k.private_key;
}

idle-SystemFrame : SystemFrame connections false idle_system
idle-SystemFrame = record {
  stat = λ p w. refl;
  make_directories = λ applied p m w. refl;
  write_file = λ applied p c m w. refl;
  generate_key = λ applied bits w. refl;
}

all_valid : valid_section section_all ≡ true
unfolding valid_section text_dec
all_valid = refl

run_command-connections_example :
    (run_command no_environment plain_runtime shop_sources idle_system
      (connect_pubsub_admin counting_library plain_durations no_deadline)
      (connect_storage_admin plain_runtime counting_storage_library no_deadline)
      (PubSub.admin refusing_client plain_durations)
      (Storage.admin plain_runtime refusing_storage)
      section_all
      applying
      (record { world = 3; log = [] })).1.world
    ≡ 3
run_command-connections_example =
    run_command-connections no_environment plain_runtime shop_sources connections idle_system
      counting_library plain_durations no_deadline counting_storage_library no_deadline applying
      counting_library_counts (λ o w. (refl, refusing_api_quiet, λ v. refl)) idle-SystemFrame
      section_all (PubSub.admin refusing_client plain_durations)
      (Storage.admin plain_runtime refusing_storage) (record { world = 3; log = [] }) all_valid

reading-Frame : Frame (λ (w : World). w) true emulator storage_server system
reading-Frame = ReadsOnly-Frame true emulator storage_server system emulator-ReadsOnly refl

abbrev dry_flags : Flags
dry_flags = record {
  section = section_all;
  dry_run = true;
  dry_run_set = true;
  show_version = false;
}

main-dry_example :
    (main no_environment
      (codes "dev")
      plain_runtime
      shop_sources
      system
      (λ p h w. (ok (unconnected emulator), w))
      (λ p h w. (ok (unconnected storage_server), w))
      broken_pubsub
      broken_storage
      dry_flags
      fresh).state.world
    ≡ empty_world
main-dry_example =
    main-dry no_environment (codes "dev") plain_runtime shop_sources system
      (λ p h w. (ok (unconnected emulator), w)) (λ p h w. (ok (unconnected storage_server), w))
      broken_pubsub broken_storage reading-Frame.on_system
      (λ p h w. (reading-Frame.on_pubsub, λ v e. e)) (λ p h w. (reading-Frame.on_storage, λ v e. e))
      dry_flags fresh refl refl
