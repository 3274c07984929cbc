-- ===== src/Command/Connect.antt =====
-- `connectPubSub` and `connectStorage` of cmd/gcp-emulator-provisioner/main.go over the clients of
-- internal/client, and the connections that are open when `run` returns.
use gcp_emulator_provisioner.Prelude.{
  ℕ, ◌≡◌, refl, Bool, true, List, [], ◌∷◌, arith, Text, Result, ok, err,
}
use gcp_emulator_provisioner.Config.Load.{Sources}
use gcp_emulator_provisioner.Client.Resources.{Topic, Subscription, FieldPath}
use gcp_emulator_provisioner.Client.Errors.{Error, Method}
use gcp_emulator_provisioner.Client.Messages.{Durations}
use gcp_emulator_provisioner.Client.Paths.{topic_path, subscription_path}
use gcp_emulator_provisioner.Client.Convert.{to_proto_topic, to_proto_subscription}
use gcp_emulator_provisioner.Client.PubSub.{
  PubSubClient, close, admin, update_topic, update_subscription,
}
use gcp_emulator_provisioner.Client.Connect.{ClientOption, Clock, PubSubLibrary, connect_pubsub}
use gcp_emulator_provisioner.Client.Connect.Laws.{
  Links, QuietClient, CountsPubSub, connect_pubsub-Links,
}
use gcp_emulator_provisioner.Client.Storage
use gcp_emulator_provisioner.Client.Storage.{
  StorageClient, StorageLibrary, operation_timeout, to_attrs, get_bucket, create_bucket,
  set_versioning, connect_storage,
}
use gcp_emulator_provisioner.Client.Storage.Laws.{QuietApi, connect_storage-Links}
use gcp_emulator_provisioner.Credentials.{System}
use gcp_emulator_provisioner.Provisioner.Effects.{Run}
use gcp_emulator_provisioner.Provisioner.Admin.{Options, PubSubAdmin, StorageAdmin}
use gcp_emulator_provisioner.Provisioner.Frame.{PubSubFrame, StorageFrame, SystemFrame}
use gcp_emulator_provisioner.Command.{Connection, valid_section, run_command}
use gcp_emulator_provisioner.Command.Keeps.{Connects, run_command-Keeps}
use gcp_emulator_provisioner.Runtime.{Runtime}

abbrev pub errors_of : Result Error (Unit {0}) → List Error
errors_of (ok closed) = []
errors_of (err e) = e ∷ []

abbrev pub connected_as :
    {W A B : Type 0} → (A → Connection W B) → Result Error A × W → Result Error (Connection W B) × W
connected_as f (ok c, w) = (ok (f c), w)
connected_as f (err e, w) = (err e, w)

module _ {W D : Type 0} (lib : PubSubLibrary W D) (durations : Durations D) (clock : Clock) where
  unfoldable pub pubsub_connection : PubSubClient W D → Connection W (PubSubAdmin W)
  unfolding admin close
  pubsub_connection c = record { admin = admin c durations; close = close c }

  unfoldable pub connect_pubsub_admin : Text → Text → Method W (Connection W (PubSubAdmin W))
  unfolding pubsub_connection
  connect_pubsub_admin project_id host w =
      connected_as pubsub_connection (connect_pubsub lib clock project_id host w)

module _ {W : Type 0} (rt : Runtime) (lib : StorageLibrary W) (clock : Clock) where
  unfoldable pub storage_connection : StorageClient W → Connection W (StorageAdmin W)
  unfolding Storage.admin Storage.close
  storage_connection c = record {
    admin = Storage.admin rt c;
    close = λ w. let (r, w') = Storage.close c w in (errors_of r, w');
  }

  unfoldable pub connect_storage_admin : Text → Text → Method W (Connection W (StorageAdmin W))
  unfolding storage_connection
  connect_storage_admin project_id host w =
      connected_as storage_connection (connect_storage lib clock project_id host w)

module _ {W : Type 0} (count : W → ℕ) (dry : Bool) where
  module _ {D : Type 0} (lib : PubSubLibrary W D) (durations : Durations D) (clock : Clock) where
    pubsub_frame :
        (c : PubSubClient W D) → QuietClient count c → PubSubFrame count dry (admin c durations)
    unfolding admin
    pubsub_frame c (topics, subs) = record {
      get_topic = λ n. topics.get_topic (topic_path c.project_id n);
      get_subscription = λ n. subs.get_subscription (subscription_path c.project_id n);
      create_topic = λ applied t. topics.create_topic (to_proto_topic durations c.project_id t);
      update_topic = λ applied t mask w. topic_updates t mask w;
      create_subscription =
          λ applied d. subs.create_subscription (to_proto_subscription durations c.project_id d);
      update_subscription = λ applied d mask w. subscription_updates d mask w;
    }
      where
        topic_updates :
            (t : Topic) (mask : List FieldPath) (w : W)
            → count (update_topic c durations t mask w).1 ≡ count w
        topic_updates t [] w = refl
        topic_updates t (p ∷ mask) w =
            topics.update_topic (to_proto_topic durations c.project_id t) (p ∷ mask) w

        subscription_updates :
            (d : Subscription) (mask : List FieldPath) (w : W)
            → count (update_subscription c durations d mask w).1 ≡ count w
        subscription_updates d [] w = refl
        subscription_updates d (p ∷ mask) w =
            subs.update_subscription (to_proto_subscription durations c.project_id d) (p ∷ mask) w

    pubsub_Connects :
        (w w' : W) (r : Result Error (PubSubClient W D))
        → Links count 2 (QuietClient count) (λ c v. (close c v).1) w (r, w')
        → Connects count
            (PubSubFrame count dry)
            w
            (connected_as (pubsub_connection lib durations clock) (r, w'))
    unfolding pubsub_connection
    pubsub_Connects w w' (err e) h = h
    pubsub_Connects w w' (ok c) (more, quiet, shut) =
        (pubsub_frame c quiet, λ v same. omega (arith, shut v, same, more))

  module _ (rt : Runtime) (lib : StorageLibrary W) (clock : Clock) where
    storage_frame :
        (c : StorageClient W)
        → QuietApi count c.client
        → StorageFrame count dry (Storage.admin rt c)
    unfolding Storage.admin
    storage_frame c quiet = record {
      get_bucket = λ n. quiet.attrs operation_timeout n;
      create_bucket = λ applied b. quiet.create operation_timeout b.name c.project_id (to_attrs b);
      set_versioning = λ applied n v. quiet.update_versioning operation_timeout n v;
    }

    storage_Connects :
        (w w' : W) (r : Result Error (StorageClient W))
        → Links count 1 (λ c. QuietApi count c.client) (λ c v. (Storage.close c v).1) w (r, w')
        → Connects count
            (StorageFrame count dry)
            w
            (connected_as (storage_connection rt lib clock) (r, w'))
    unfolding storage_connection
    storage_Connects w w' (err e) h = h
    storage_Connects w w' (ok c) (more, quiet, shut) =
        (storage_frame c quiet, λ v same. omega (arith, shut v, same, more))

module _ (getenv : Text → Text) (rt : Runtime) (sources : Sources) {W D : Type 0} (count : W → ℕ)
    (sys : System W) (lib : PubSubLibrary W D) (durations : Durations D) (clock : Clock)
    (storage_lib : StorageLibrary W) (storage_clock : Clock) (opts : Options)
    (counts : CountsPubSub count lib)
    (dials : (o : List ClientOption) (w : W)
      → Links count 1 (QuietApi count) (λ c v. (c.close v).1) w (storage_lib.new_client o w))
    (system : SystemFrame count opts.dry_run sys) where
  -- Where each dialling opens one connection, which the closing of its client closes and no other
  -- call does, the command ends in a valid section with as many open connections as it began with,
  -- whatever the configuration, the services' answers and the error that may end the run are.
  pub run_command-connections :
      (section : Text) (nil_pubsub : PubSubAdmin W) (nil_storage : StorageAdmin W) (s : Run W)
      → valid_section section ≡ true
      → count
          (run_command getenv rt sources sys
            (connect_pubsub_admin lib durations clock)
            (connect_storage_admin rt storage_lib storage_clock)
            nil_pubsub
            nil_storage
            section
            opts
            s).1.world
        ≡ count s.world
  run_command-connections section nil_pubsub nil_storage s valid =
      run_command-Keeps getenv rt sources count sys (connect_pubsub_admin lib durations clock)
        (connect_storage_admin rt storage_lib storage_clock) opts system
        (λ p h w.
          unfold connect_pubsub_admin in
          pubsub_Connects count opts.dry_run lib durations clock w _ _
            (connect_pubsub-Links count lib clock counts p h w))
        (λ p h w.
          unfold connect_storage_admin in
          storage_Connects count opts.dry_run rt storage_lib storage_clock w _ _
            (connect_storage-Links count storage_lib storage_clock dials p h w))
        section nil_pubsub nil_storage s valid
