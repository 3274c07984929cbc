-- ===== src/Provisioner/Tests/Runs.antt =====
-- The theorems on the handlers and sections at a world of maps.
use gcp_emulator_provisioner.Prelude.{
  ◌≡◌, ◌*◌, refl, true, none, some, [], ◌∷◌, codes, ok, text_dec, lookup, All, false, ◌==◌, Text,
}
use gcp_emulator_provisioner.Prelude.Int.{pos, to_int64, to_int32}
use gcp_emulator_provisioner.Config.GoTime.{hour, second, time_parse_duration}
use gcp_emulator_provisioner.Config.Duration.{parse_duration, trim_d}
use gcp_emulator_provisioner.Config.Strategy.{create, update}
use gcp_emulator_provisioner.Client.Resources
use gcp_emulator_provisioner.Provisioner.Effects.{Run}
use gcp_emulator_provisioner.Provisioner.Topics.{build_topic, built_duration, ensure_topic}
use gcp_emulator_provisioner.Provisioner.Service.{as_sent, viewed}
use gcp_emulator_provisioner.Provisioner.Topics.Laws.{set_topic}
use gcp_emulator_provisioner.Provisioner.Subscriptions.Drifts.{set_subscription}
use gcp_emulator_provisioner.Provisioner.Topics.Convergence.{ensure_topic_twice}
use gcp_emulator_provisioner.Provisioner.Buckets.{ensure_bucket}
use gcp_emulator_provisioner.Provisioner.Buckets.Convergence as BucketRuns
use gcp_emulator_provisioner.Provisioner.Buckets.Convergence.{ensure_bucket_twice}
use gcp_emulator_provisioner.Provisioner.Subscriptions.Build.{
  build_subscription, build_expiration, build_retry, build_push_config, build_dead_letter,
}
use gcp_emulator_provisioner.Provisioner.Subscriptions.Ensure.{ensure_subscription}
use gcp_emulator_provisioner.Provisioner.Subscriptions.Laws.{as_sent-IsFilled}
use gcp_emulator_provisioner.Client.Convert.Laws.{IsSendable, IsSendableTopic}
use gcp_emulator_provisioner.Provisioner.Subscriptions.Convergence.{ensure_subscription_twice}
use gcp_emulator_provisioner.Provisioner.Sections.{provision_pubsub, run}
use gcp_emulator_provisioner.Provisioner.Sections.Steps.{Has, HasTargets}
use gcp_emulator_provisioner.Provisioner.Sections.Complete.{provision_pubsub-Succeeds}
use gcp_emulator_provisioner.Provisioner.DryRun.Sections.{run-LeavesWorld}
use gcp_emulator_provisioner.Provisioner.Tests.Worlds.{
  World, file_table, system-KeepsFiles, topic_table, subscription_table, bucket_table, emulator,
  storage_server, system, emulator_support, emulator_refusing, emulator-ServesTopics,
  emulator-ServesSubscriptions, storage-ServesBuckets, emulator-ReadsOnly, empty_world, applying,
  dry,
}
use gcp_emulator_provisioner.Provisioner.Validated.{build_subscription-Builds}
use gcp_emulator_provisioner.Config.Validate.Sound.{IsChecked}
use gcp_emulator_provisioner.Config.Validate.Accepted.{validate_topics-IsAccepted}
use gcp_emulator_provisioner.Config.Schema.{Credential}
use gcp_emulator_provisioner.Provisioner.Keys.{ensure_credential}
use gcp_emulator_provisioner.Provisioner.Keys.Stability.{ensure_credential_twice}
use gcp_emulator_provisioner.Samples.{
  dead, plain_runtime, orders, dead_lettered, archive, shop, shop_topics_valid,
}

abbrev start : Run World
start = record { world = empty_world; log = [] }

run-LeavesWorld_example :
    (run plain_runtime emulator storage_server system dry shop start).1.world ≡ empty_world
run-LeavesWorld_example =
    run-LeavesWorld plain_runtime emulator storage_server system dry emulator-ReadsOnly refl shop
      start

provision_pubsub-Succeeds_example :
    let after = provision_pubsub plain_runtime emulator applying shop start in
    (after.0 ≡ ok tt)
    × All (λ t. Has topic_table t.name after.1.world) shop.pubsub.topics
    × All
        (λ t. All (λ b. Has subscription_table b.name after.1.world) t.subscriptions)
        shop.pubsub.topics
provision_pubsub-Succeeds_example =
    provision_pubsub-Succeeds plain_runtime emulator applying (as_sent set_topic)
      (as_sent set_subscription) topic_table subscription_table emulator_support emulator_support
      (λ d. d) emulator_refusing emulator_refusing (emulator-ServesTopics IsSendableTopic)
      (emulator-ServesSubscriptions IsSendable) (λ n d w j. refl) refl shop start shop_topics_valid

abbrev orders_topic : Resources.Topic
orders_topic = record {
  name = codes "orders";
  labels = (codes "env", codes "dev") ∷ [];
  message_retention = pos hour;
}

one_key : (k : Text) → lookup k [] ≡ none
unfolding lookup
one_key k = refl

orders_built : build_topic plain_runtime orders ≡ ok orders_topic
unfolding build_topic built_duration parse_duration trim_d time_parse_duration text_dec to_int64
orders_built = refl

ensure_topic_twice_example :
    let first = ensure_topic plain_runtime emulator applying orders update start in
    let second = ensure_topic plain_runtime emulator applying orders update first.1 in
    (first.0 ≡ ok tt)
    × (viewed (as_sent set_topic) (first.1.world.topics (codes "orders")) ≡ some orders_topic)
    × (second.0 ≡ ok tt)
    × (second.1.world ≡ first.1.world)
ensure_topic_twice_example =
    ensure_topic_twice plain_runtime emulator applying (as_sent set_topic) topic_table
      emulator_support emulator_refusing (λ t. Unit {0}) (emulator-ServesTopics (λ t. Unit {0}))
      refl orders orders_topic update orders_built tt (λ live. tt) start (one_key (codes "env"), tt)
      (λ live h. absurd (cc h))

ensure_bucket_twice_example :
    let first = ensure_bucket plain_runtime storage_server applying archive update start in
    let second = ensure_bucket plain_runtime storage_server applying archive update first.1 in
    (first.0 ≡ ok tt)
    × (first.1.world.buckets (codes "archive")
        ≡ some (BucketRuns.ensured plain_runtime archive update none))
    × (second.0 ≡ ok tt)
    × (second.1.world ≡ first.1.world)
ensure_bucket_twice_example =
    ensure_bucket_twice plain_runtime storage_server applying bucket_table storage-ServesBuckets
      refl archive update start

abbrev billing : Resources.Subscription
billing = record {
  name = codes "billing";
  topic = codes "orders";
  ack_deadline = pos (30 * second);
  message_retention = pos 0;
  retain_acked_messages = none;
  enable_message_ordering = none;
  enable_exactly_once_delivery = none;
  filter = [];
  expiration_set = true;
  expiration_ttl = pos 0;
  labels = [];
  push = none;
  dead_letter = some (record { topic = codes "dead"; max_delivery_attempts = pos 5 });
  retry = none;
}

billing_built : build_subscription plain_runtime (codes "orders") dead_lettered ≡ ok billing
unfolding build_subscription build_expiration build_retry build_push_config build_dead_letter
    built_duration parse_duration trim_d time_parse_duration text_dec to_int64 to_int32
billing_built = refl

-- Both topics are there.
abbrev with_topics : Run World
with_topics = record { world = record empty_world { topics = λ n. some orders_topic }; log = [] }

ensure_subscription_twice_example :
    let first =
      ensure_subscription plain_runtime emulator applying
        (codes "orders")
        dead_lettered
        update
        with_topics in
    let second =
      ensure_subscription plain_runtime emulator applying
        (codes "orders")
        dead_lettered
        update
        first.1 in
    (first.0 ≡ ok tt)
    × (viewed (as_sent set_subscription) (first.1.world.subscriptions (codes "billing"))
        ≡ some billing)
    × (second.0 ≡ ok tt)
    × (second.1.world ≡ first.1.world)
ensure_subscription_twice_example =
    ensure_subscription_twice plain_runtime emulator applying (as_sent set_subscription)
      subscription_table emulator_support emulator_refusing (λ d. d) (λ d. Unit {0})
      (HasTargets topic_table) (emulator-ServesSubscriptions (λ d. Unit {0})) refl (codes "orders")
      dead_lettered billing update billing_built tt (λ live. tt) with_topics
      (λ d fit h. as_sent-IsFilled d h) (record { labels = tt; attributes = tt })
      (λ live h. absurd (cc h)) (λ gone. ((orders_topic, refl), λ p e. (orders_topic, refl)))

dead_lettered-IsChecked : IsChecked plain_runtime dead_lettered
dead_lettered-IsChecked =
    (validate_topics-IsAccepted plain_runtime (orders ∷ dead ∷ [])
      shop_topics_valid).checked.0.subscriptions.0

build_subscription-Builds_example :
    (d : Resources.Subscription) × (build_subscription plain_runtime (codes "orders") dead_lettered
      ≡ ok d)
build_subscription-Builds_example =
    build_subscription-Builds plain_runtime (codes "orders") dead_lettered dead_lettered-IsChecked

abbrev local_key : Credential
local_key = record { path = codes "key.json"; strategy = []; account = []; token_uri = [] }

create_differs : (create == update) ≡ false
unfolding text_dec
create_differs = refl

ensure_credential_twice_example :
    let first = ensure_credential system false (codes "local-dev") local_key create start in
    let second = ensure_credential system false (codes "local-dev") local_key create first.1 in
    (first.0 ≡ ok tt)
    × ((c : Text) × (first.1.world.files (codes "key.json") ≡ some c))
    × ((old : Text) → none ≡ some old → first.1.world.files (codes "key.json") ≡ some old)
    × (second.0 ≡ ok tt)
    × (second.1.world ≡ first.1.world)
ensure_credential_twice_example =
    ensure_credential_twice system file_table system-KeepsFiles (codes "local-dev") local_key create
      refl create_differs start
