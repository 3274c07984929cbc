-- ===== src/Provisioner/Tests/Served.antt =====
-- The theorems on internal/provisioner through the client of internal/client/pubsub.go, at a service
-- that keeps messages in maps.
use gcp_emulator_provisioner.Prelude.{
  text_dec, true, ◌*◌, ◌≡◌, refl, ap, inr, Option, none, some, [], ◌∷◌, Text, codes, ok, err,
  Result, All,
}
use gcp_emulator_provisioner.Prelude.Int.{pos, to_int64, to_int32}
use gcp_emulator_provisioner.Config.GoTime.{Duration, hour, time_parse_duration}
use gcp_emulator_provisioner.Config.Duration.{parse_duration, trim_d}
use gcp_emulator_provisioner.Config.Schema
use gcp_emulator_provisioner.Config.Strategy.{update}
use gcp_emulator_provisioner.Client.Errors.{Error, is_not_found}
use gcp_emulator_provisioner.Client.Paths.{topic_path, subscription_path, project_path}
use gcp_emulator_provisioner.Client.Messages.{
  TopicMessage, SubscriptionMessage, DeadLetterPolicyMessage, RetryPolicyMessage,
}
use gcp_emulator_provisioner.Client.PubSub.{
  done, TopicAdminClient, SubscriptionAdminClient, PubSubClient, admin,
}
use gcp_emulator_provisioner.Client.Samples.{plain_durations, absent, billing}
use gcp_emulator_provisioner.Provisioner.Effects.{Run}
use gcp_emulator_provisioner.Provisioner.Service.{Table, answer_create, answer_update, viewed}
use gcp_emulator_provisioner.Provisioner.Topics.{built_duration}
use gcp_emulator_provisioner.Provisioner.Subscriptions.Build.{
  build_subscription, build_expiration, build_retry, build_push_config, build_dead_letter,
}
use gcp_emulator_provisioner.Provisioner.Subscriptions.Ensure.{ensure_subscription}
use gcp_emulator_provisioner.Provisioner.Sections.{provision_pubsub}
use gcp_emulator_provisioner.Provisioner.Tests.Messages.{billing-IsSendable}
use gcp_emulator_provisioner.Provisioner.Sections.Steps.{Has}
use gcp_emulator_provisioner.Provisioner.Readback.Keeps.{
  Completes, FilledIn, FilledInDeadLetter, FilledInRetry,
}
use gcp_emulator_provisioner.Provisioner.Served.{
  subscription_form, filled, Answers, KeepsTopics, KeepsSubscriptions, set_topic_field,
  set_subscription_field,
}
use gcp_emulator_provisioner.Provisioner.Served.Runs.{
  provision_pubsub-admin, ensure_subscription-admin,
}
use gcp_emulator_provisioner.Provisioner.Tests.Worlds.{
  Store, store, store-store, store_same, emulator_support, emulator_refusing, applying,
}
use gcp_emulator_provisioner.Samples.{plain_runtime, dead_lettered, shop, shop_topics_valid}

record Messages : Type 0 where
  pub topics : Store (TopicMessage Duration)
  pub subscriptions : Store (SubscriptionMessage Duration)

abbrev topic_messages : Table Messages (TopicMessage Duration)
topic_messages = record {
  at = λ w n. w.topics n;
  put = λ n r w. record w { topics = store n r w.topics };
  at-put = λ n r w j. refl;
  put-put = λ n r r' w. ap (λ f. record w { topics = f }) (store-store n r r' w.topics);
  put-at = λ n r w h. ap (λ f. record w { topics = f }) (store_same n r w.topics h);
}

abbrev subscription_messages : Table Messages (SubscriptionMessage Duration)
subscription_messages = record {
  at = λ w n. w.subscriptions n;
  put = λ n r w. record w { subscriptions = store n r w.subscriptions };
  at-put = λ n r w j. refl;
  put-put =
      λ n r r' w. ap (λ f. record w { subscriptions = f }) (store-store n r r' w.subscriptions);
  put-at = λ n r w h. ap (λ f. record w { subscriptions = f }) (store_same n r w.subscriptions h);
}

-- What stands behind a prefix, by its length
abbrev behind : Text → Text → Text
behind [] s = s
behind (c ∷ prefix) [] = []
behind (c ∷ prefix) (d ∷ s) = behind prefix s

abbrev topic_of : Text → Text
topic_of path = behind (codes "projects/local-dev/topics/") path

abbrev subscription_of : Text → Text
subscription_of path = behind (codes "projects/local-dev/subscriptions/") path

abbrev found_message : {M : Type 0} → Messages → Option M → Result Error M × Messages
found_message w none = (err absent, w)
found_message w (some m) = (ok m, w)

found_message-Answers : {M : Type 0} (o : Option M) (w : Messages) → Answers o w (found_message w o)
unfolding is_not_found
found_message-Answers none w = (absent, refl, refl)
found_message-Answers (some m) w = refl

-- A retention that was left out is a week.
abbrev or_week : Option Duration → Option Duration
or_week none = some (pos (7 * 24 * hour))
or_week (some d) = some d

abbrev complete : SubscriptionMessage Duration → SubscriptionMessage Duration
complete m = record m { message_retention_duration = or_week m.message_retention_duration }

or_week-FilledIn : (o : Option Duration) → FilledIn o (or_week o)
or_week-FilledIn none = tt
or_week-FilledIn (some d) = refl

self-FilledIn : {A : Type 0} (o : Option A) → FilledIn o o
self-FilledIn none = tt
self-FilledIn (some a) = refl

self-FilledInDeadLetter : (o : Option DeadLetterPolicyMessage) → FilledInDeadLetter o o
self-FilledInDeadLetter none = tt
self-FilledInDeadLetter (some p) = (p, refl, refl, inr refl)

self-FilledInRetry : (o : Option (RetryPolicyMessage Duration)) → FilledInRetry o o
self-FilledInRetry none = tt
self-FilledInRetry (some p) =
    (p, refl, self-FilledIn p.minimum_backoff, self-FilledIn p.maximum_backoff)

complete-Completes : (m : SubscriptionMessage Duration) → Completes m (complete m)
complete-Completes m = record {
  name = refl;
  topic = refl;
  filter = refl;
  labels = refl;
  retain_acked_messages = refl;
  enable_message_ordering = refl;
  enable_exactly_once_delivery = refl;
  ack_deadline = inr refl;
  message_retention = or_week-FilledIn m.message_retention_duration;
  expiration = self-FilledIn m.expiration_policy;
  push = self-FilledIn m.push_config;
  dead_letter = self-FilledInDeadLetter m.dead_letter_policy;
  retry = self-FilledInRetry m.retry_policy;
}

abbrev topic_service : TopicAdminClient Messages Duration
topic_service = record {
  get_topic = λ path w. found_message w (w.topics (topic_of path));
  create_topic = λ m. answer_create topic_messages (topic_of m.name) m;
  update_topic = λ m mask.
      answer_update topic_messages (set_topic_field m) emulator_support (topic_of m.name) mask;
  list_topics = λ project size n w. done;
  close = λ w. (ok tt, w);
}

abbrev subscription_service : SubscriptionAdminClient Messages Duration
subscription_service = record {
  get_subscription = λ path w. found_message w (w.subscriptions (subscription_of path));
  create_subscription =
      λ m. answer_create subscription_messages (subscription_of m.name) (complete m);
  update_subscription = λ m mask.
      answer_update subscription_messages (set_subscription_field (complete m)) emulator_support
        (subscription_of m.name) mask;
  close = λ w. (ok tt, w);
}

abbrev client : PubSubClient Messages Duration
client = record {
  project_id = codes "local-dev";
  topics = topic_service;
  subs = subscription_service;
}

topic_service-KeepsTopics :
    KeepsTopics topic_service (codes "local-dev") topic_messages emulator_support
unfolding topic_path project_path
topic_service-KeepsTopics = record {
  get = λ n w. found_message-Answers (w.topics n) w;
  create = λ n m w e h. ap (λ path. answer_create topic_messages (topic_of path) m w) e;
  update = λ n m mask live w e h.
      ap
        (λ path.
          answer_update topic_messages (set_topic_field m) emulator_support (topic_of path) mask w)
        e;
}

subscription_service-KeepsSubscriptions :
    KeepsSubscriptions subscription_service plain_durations
      (codes "local-dev")
      topic_messages
      subscription_messages
      emulator_support
      complete
unfolding subscription_path project_path
subscription_service-KeepsSubscriptions = record {
  get = λ n w. found_message-Answers (w.subscriptions n) w;
  create = λ n m w e h room.
      ap (λ path. answer_create subscription_messages (subscription_of path) (complete m) w) e;
  update = λ n m mask live w e h.
      ap
        (λ path.
          answer_update subscription_messages (set_subscription_field (complete m)) emulator_support
            (subscription_of path) mask w)
        e;
}

abbrev nothing_there : Run Messages
nothing_there = record {
  world = record { topics = λ n. none; subscriptions = λ n. none };
  log = [];
}

provision_pubsub-admin_example :
    let after =
      provision_pubsub plain_runtime (admin client plain_durations) applying shop nothing_there in
    (after.0 ≡ ok tt)
    × All (λ t. Has topic_messages t.name after.1.world) shop.pubsub.topics
    × All
        (λ t. All (λ b. Has subscription_messages b.name after.1.world) t.subscriptions)
        shop.pubsub.topics
provision_pubsub-admin_example =
    provision_pubsub-admin plain_runtime client plain_durations applying topic_messages
      subscription_messages emulator_support emulator_support emulator_refusing emulator_refusing
      complete topic_service-KeepsTopics subscription_service-KeepsSubscriptions refl shop
      nothing_there (λ n d w j. refl) shop_topics_valid

abbrev ordered : Schema.Subscription
ordered = record dead_lettered { enable_message_ordering = some true }

billing_built : build_subscription plain_runtime (codes "orders") ordered ≡ ok billing
unfolding build_subscription build_expiration build_retry build_push_config build_dead_letter
    built_duration parse_duration trim_d time_parse_duration text_dec to_int64 to_int32
billing_built = refl

abbrev any_topic : TopicMessage Duration
any_topic = record { name = []; labels = []; message_retention_duration = none }

-- Every topic is there.
abbrev with_topics : Run Messages
with_topics = record {
  world = record { topics = λ n. some any_topic; subscriptions = λ n. none };
  log = [];
}

ensure_subscription-admin_example :
    let through = admin client plain_durations in
    let first =
      ensure_subscription plain_runtime through applying
        (codes "orders")
        ordered
        update
        with_topics in
    let second =
      ensure_subscription plain_runtime through applying (codes "orders") ordered update first.1 in
    (first.0 ≡ ok tt)
    × (viewed
          (subscription_form plain_durations (codes "local-dev") complete)
          (first.1.world.subscriptions (codes "billing"))
        ≡ some (filled plain_durations (codes "local-dev") complete billing))
    × (second.0 ≡ ok tt)
    × (second.1.world ≡ first.1.world)
ensure_subscription-admin_example =
    ensure_subscription-admin plain_runtime client plain_durations applying topic_messages
      subscription_messages emulator_support emulator_support emulator_refusing emulator_refusing
      complete topic_service-KeepsTopics subscription_service-KeepsSubscriptions refl
      (codes "orders") ordered billing update with_topics complete-Completes billing_built
      (billing-IsSendable, (λ e. cc), tt) (record { labels = tt; attributes = tt })
      (λ live h. absurd (cc h)) ((any_topic, refl), λ p e. (any_topic, refl))
