-- ===== src/Provisioner/Tests/Messages.antt =====
-- The theorems on internal/provisioner over the clients of internal/client at concrete data.
use gcp_emulator_provisioner.Prelude.{
  ◌*◌, ◌≡◌, refl, ap, Bool, Result, inr, true, Option, none, some, [], ◌∷◌, Text, codes, ok, err,
  All, arith,
}
use gcp_emulator_provisioner.Prelude.Int.{pos}
use gcp_emulator_provisioner.Config.GoTime.{Duration, hour}
use gcp_emulator_provisioner.Config.Names.{matches_resource_name, is_name_char}
use gcp_emulator_provisioner.Client.Resources.{Subscription}
use gcp_emulator_provisioner.Client.Errors.{Error, missing}
use gcp_emulator_provisioner.Client.Messages.{SubscriptionMessage}
use gcp_emulator_provisioner.Client.Convert.{
  to_proto_subscription, set_duration, to_proto_ack_deadline, to_proto_expiration, to_proto_push,
  to_proto_dead_letter, to_proto_retry,
}
use gcp_emulator_provisioner.Client.Convert.Laws.{IsSendable}
use gcp_emulator_provisioner.Client.PubSub.{
  done, SubscriptionAdminClient, PubSubClient, create_subscription, get_subscription,
}
use gcp_emulator_provisioner.Client.Storage
use gcp_emulator_provisioner.Client.Storage.{BucketAttrs, StorageApi, StorageClient}
use gcp_emulator_provisioner.Client.Samples.{plain_durations, billing}
use gcp_emulator_provisioner.Provisioner.Service.{Table}
use gcp_emulator_provisioner.Provisioner.Subscriptions.Diff.{diff_subscription, immutable_drift}
use gcp_emulator_provisioner.Provisioner.Effects.{Run}
use gcp_emulator_provisioner.Provisioner.Buckets.{ensure_bucket}
use gcp_emulator_provisioner.Provisioner.Buckets.Convergence.{ensured}
use gcp_emulator_provisioner.Config.Schema
use gcp_emulator_provisioner.Config.Strategy.{update}
use gcp_emulator_provisioner.Provisioner.Buckets.Served.{
  found_attrs, KeepsAttrs, attrs_of, ensure_bucket-admin,
}
use gcp_emulator_provisioner.Provisioner.Readback.{
  SurvivesMessage, from_proto_subscription-build_subscription,
}
use gcp_emulator_provisioner.Provisioner.Readback.Keeps.{Completes}
use gcp_emulator_provisioner.Provisioner.Readback.Drift.{diff_subscription-created}
use gcp_emulator_provisioner.Provisioner.Tests.Worlds.{
  applying, Store, store, store-store, store_same,
}
use gcp_emulator_provisioner.Samples.{plain_runtime, orders, dead, shop_topics_valid}

from_proto_subscription-build_subscription_example :
    All
      (λ t.
        All (SurvivesMessage plain_runtime plain_durations (codes "local-dev") t) t.subscriptions)
      (orders ∷ dead ∷ [])
from_proto_subscription-build_subscription_example =
    from_proto_subscription-build_subscription plain_runtime plain_durations (codes "local-dev")
      (orders ∷ dead ∷ []) shop_topics_valid

-- What the service stores of the message: the retention that was left out is a week.
abbrev sent : SubscriptionMessage Duration
sent = to_proto_subscription plain_durations (codes "local-dev") billing

abbrev stored : SubscriptionMessage Duration
stored = record sent { message_retention_duration = some (pos (7 * 24 * hour)) }

-- A service for one subscription
abbrev one_subscription :
    Option (SubscriptionMessage Duration) → Result Error (SubscriptionMessage Duration)
one_subscription none = err missing
one_subscription (some s) = ok s

abbrev storing : SubscriptionAdminClient (Option (SubscriptionMessage Duration)) Duration
storing = record {
  get_subscription = λ path w. (one_subscription w, w);
  create_subscription =
      λ s w. (ok tt, some (record s { message_retention_duration = some (pos (7 * 24 * hour)) }));
  update_subscription = λ s mask w. (err missing, w);
  close = λ w. (ok tt, w);
}

abbrev storing_client : PubSubClient (Option (SubscriptionMessage Duration)) Duration
storing_client = record {
  project_id = codes "local-dev";
  topics = record {
    get_topic = λ path w. (err missing, w);
    create_topic = λ t w. (err missing, w);
    update_topic = λ t mask w. (err missing, w);
    list_topics = λ project size n w. done;
    close = λ w. (ok tt, w);
  };
  subs = storing;
}

pub billing-IsSendable : IsSendable billing
unfolding matches_resource_name is_name_char
billing-IsSendable = record {
  name = refl;
  topic = refl;
  ack_deadline = (30, omega arith, refl);
  message_retention = (0, refl);
  expiration = (0, refl);
  push = tt;
  dead_letter = refl;
  retry = tt;
}

stored-Completes : Completes sent stored
unfolding to_proto_subscription to_proto_ack_deadline set_duration to_proto_expiration to_proto_push
    to_proto_dead_letter to_proto_retry
stored-Completes = record {
  name = refl;
  topic = refl;
  filter = refl;
  labels = refl;
  retain_acked_messages = refl;
  enable_message_ordering = refl;
  enable_exactly_once_delivery = refl;
  ack_deadline = inr refl;
  message_retention = tt;
  expiration = refl;
  push = tt;
  dead_letter = (_, refl, refl, inr refl);
  retry = tt;
}

diff_subscription-created_example :
    (create_subscription storing_client plain_durations billing none ≡ (ok tt, some stored))
    × ((current : Subscription) × ((get_subscription storing_client plain_durations
            (codes "billing")
            (some stored)).0
          ≡ ok current)
        × (diff_subscription current billing ≡ [])
        × (immutable_drift current billing ≡ []))
diff_subscription-created_example =
    diff_subscription-created storing_client plain_durations billing stored none (some stored)
      billing-IsSendable (record { labels = tt; attributes = tt }) (λ e. cc) tt refl refl
      stored-Completes

abbrev attrs_table : Table (Store BucketAttrs) BucketAttrs
attrs_table = record {
  at = λ w n. w n;
  put = λ n r w. store n r w;
  at-put = λ n r w j. refl;
  put-put = λ n r r' w. store-store n r r' w;
  put-at = λ n r w h. store_same n r w h;
}

abbrev set_attrs :
    Text
    → Bool
    → Store BucketAttrs
    → Option BucketAttrs
    → Result Error (Unit {0}) × Store BucketAttrs
set_attrs n v w none = (err missing, w)
set_attrs n v w (some live) = (ok tt, store n (record live { versioning_enabled = v }) w)

abbrev table_client : StorageClient (Store BucketAttrs)
table_client = record {
  project_id = codes "local-dev";
  client = record {
    attrs = λ t n w. found_attrs w n (w n);
    create = λ t n project a w. (ok tt, store n (record a { name = n }) w);
    update_versioning = λ t n v w. set_attrs n v w (w n);
    buckets = λ t project n w. done;
    close = λ w. (ok tt, w);
  };
}

table_keeps : KeepsAttrs table_client.client (codes "local-dev") attrs_table (λ n. n)
table_keeps = record {
  attrs = λ t n w. refl;
  create = λ t n a w h. refl;
  update_versioning = λ t n v live w h. ap (set_attrs n v w) h;
}

-- A bucket that is missing, with versioning configured
abbrev versioned : Schema.Bucket
versioned = record {
  name = codes "archive";
  location = codes "EU";
  storage_class = codes "STANDARD";
  versioning = some true;
  strategy = [];
}

abbrev no_buckets : Run (Store BucketAttrs)
no_buckets = record { world = λ n. none; log = [] }

ensure_bucket-admin_example :
    let client = Storage.admin plain_runtime table_client in
    let first = ensure_bucket plain_runtime client applying versioned update no_buckets in
    let second = ensure_bucket plain_runtime client applying versioned update first.1 in
    (first.0 ≡ ok tt)
    × (first.1.world (codes "archive")
        ≡ some (attrs_of (ensured plain_runtime versioned update none)))
    × (second.0 ≡ ok tt)
    × (second.1.world ≡ first.1.world)
ensure_bucket-admin_example =
    ensure_bucket-admin plain_runtime table_client attrs_table (λ n. n) table_keeps applying
      versioned update no_buckets refl
