-- ===== src/Client/Samples.antt =====
-- Sample data for the tests of internal/client: durations that stand for themselves, and services
-- whose state is the number of open connections and which refuse every call.
use gcp_emulator_provisioner.Prelude.{
  ℕ, ◌+◌, ◌-◌, ◌*◌, ◌/◌, ◌^◌, ◌<◌, ◌≡◌, refl, ap, Option, none, some, Text, codes, ok, err, arith,
  true, false, [],
}
use gcp_emulator_provisioner.Prelude.Int.{ℤ, pos, negsuc}
use gcp_emulator_provisioner.Config.GoTime.{Duration, second}
use gcp_emulator_provisioner.Client.Resources.{Topic, Subscription}
use gcp_emulator_provisioner.Client.Errors.{Error, status, not_found, invalid_argument, http, plain}
use gcp_emulator_provisioner.Client.Messages.{Durations}
use gcp_emulator_provisioner.Client.PubSub.{
  done, TopicAdminClient, SubscriptionAdminClient, PubSubClient,
}
use gcp_emulator_provisioner.Client.Connect.{Clock, PubSubLibrary}
use gcp_emulator_provisioner.Client.Connect.Laws.{CountsPubSub}
use gcp_emulator_provisioner.Client.Storage.{StorageApi, StorageClient, StorageLibrary}
use gcp_emulator_provisioner.Client.Storage.Laws.{QuietApi}

abbrev pub given : Option Duration → Duration
given none = pos 0
given (some d) = d

abbrev pub seconds_of : Duration → ℤ
seconds_of (pos n) = pos (n / second)
seconds_of (negsuc n) = pos 0

pub seconds_of_whole : (k : ℕ) → k < 2 ^ 31 → seconds_of (pos (k * second)) ≡ pos k
seconds_of_whole k h = ap (λ (t : ℕ). pos t) (omega arith)

abbrev pub plain_durations : Durations Duration
plain_durations = record {
  new = λ d. d;
  as_duration = given;
  whole_seconds = seconds_of;
  as_duration-none = refl;
  as_duration-new = λ d. refl;
  whole_seconds-second = seconds_of_whole;
}

abbrev pub absent : Error
absent = status not_found (codes "Resource not found")

abbrev pub unknown_field : Error
unknown_field = status invalid_argument (codes "labels is not a known Topic field")

abbrev pub refusing_topics : TopicAdminClient ℕ Duration
refusing_topics = record {
  get_topic = λ path w. (err absent, w);
  create_topic = λ t w. (err unknown_field, w);
  update_topic = λ t mask w. (err unknown_field, w);
  list_topics = λ project size n w. done;
  close = λ w. (ok tt, w - 1);
}

abbrev pub refusing_subscriptions : SubscriptionAdminClient ℕ Duration
refusing_subscriptions = record {
  get_subscription = λ path w. (err absent, w);
  create_subscription = λ s w. (err unknown_field, w);
  update_subscription = λ s mask w. (err unknown_field, w);
  close = λ w. (ok tt, w - 1);
}

abbrev pub refusing_client : PubSubClient ℕ Duration
refusing_client = record {
  project_id = codes "local-dev";
  topics = refusing_topics;
  subs = refusing_subscriptions;
}

abbrev pub counting_library : PubSubLibrary ℕ Duration
counting_library = record {
  new_topic_admin_client = λ opts w. (ok refusing_topics, w + 1);
  new_subscription_admin_client = λ opts w. (ok refusing_subscriptions, w + 1);
}

abbrev pub connections : ℕ → ℕ
connections w = w

pub counting_library_counts : CountsPubSub connections counting_library
counting_library_counts = record {
  topics = λ opts w. (
    refl,
    record {
      get_topic = λ path v. refl;
      create_topic = λ t v. refl;
      update_topic = λ t mask v. refl;
    },
    λ v. refl,
  );
  subs = λ opts w. (
    refl,
    record {
      get_subscription = λ path v. refl;
      create_subscription = λ s v. refl;
      update_subscription = λ s mask v. refl;
    },
    λ v. refl,
  );
}

abbrev pub refused_text : Text
refused_text = codes "denied on bucket logs-409 for nobody"

abbrev pub refusing_api : StorageApi ℕ
refusing_api = record {
  attrs = λ t n w. (err (plain (codes "unreachable")), w);
  create = λ t n project a w. (err (http 403 refused_text), w);
  update_versioning = λ t n v w. (err (plain (codes "unreachable")), w);
  buckets = λ t project n w. done;
  close = λ w. (ok tt, w - 1);
}

abbrev pub refusing_storage : StorageClient ℕ
refusing_storage = record { project_id = codes "local-dev"; client = refusing_api }

abbrev pub counting_storage_library : StorageLibrary ℕ
counting_storage_library = record { new_client = λ opts w. (ok refusing_api, w + 1) }

pub refusing_api_quiet : QuietApi connections refusing_api
refusing_api_quiet = record {
  attrs = λ t n w. refl;
  create = λ t n project a w. refl;
  update_versioning = λ t n v w. refl;
}

abbrev pub no_deadline : Clock
no_deadline = record {
  expired = λ n. false;
  expired_waiting = λ n. false;
  context_error = plain (codes "context deadline exceeded");
}

abbrev pub orders_topic : Topic
orders_topic = record { name = codes "orders"; labels = []; message_retention = pos 0 }

abbrev pub billing : Subscription
billing = record {
  name = codes "billing";
  topic = codes "orders";
  ack_deadline = pos (30 * second);
  message_retention = pos 0;
  retain_acked_messages = none;
  enable_message_ordering = some true;
  enable_exactly_once_delivery = none;
  filter = codes "";
  expiration_set = true;
  expiration_ttl = pos 0;
  labels = [];
  push = none;
  dead_letter = some (record { topic = codes "dead"; max_delivery_attempts = pos 5 });
  retry = none;
}
