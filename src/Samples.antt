-- ===== src/Samples.antt =====
-- Sample data for the tests: the standard library by plain functions, and a configuration with a
-- dead letter topic.
use gcp_emulator_provisioner.Prelude.{
  ◌≡◌, refl, ◌*◌, ◌/◌, ◌^◌, false, none, some, [], ◌∷◌, codes, ok, text_dec, ◌==◌, has_prefix,
}
use gcp_emulator_provisioner.Prelude.Int.{pos, ◌*ℤ◌, to_int64}
use gcp_emulator_provisioner.Config.Schema
use gcp_emulator_provisioner.Config.GoTime.{Fraction, atoi, decimal, time_parse_duration}
use gcp_emulator_provisioner.Config.Duration.{parse_duration, days_duration, trim_d}
use gcp_emulator_provisioner.Config.Names.{
  contains_null_byte, matches_resource_name, matches_project_id, matches_bucket_name, is_name_char,
  ends_alphanumeric, is_label_char,
}
use gcp_emulator_provisioner.Config.Strategy.{valid_strategy}
use gcp_emulator_provisioner.Config.Validate.Fields.{
  validate_strategy, validate_labels, validate_duration_range, validate_duration, parsed,
}
use gcp_emulator_provisioner.Config.Validate.Subscriptions.{
  validate_name, validate_subscriptions, validate_subscriptions_from, validate_settings,
  validate_ack_deadline, valid_push_wrapper, validate_dead_letter, validate_expiration_ttl,
  validate_oidc_token, validate_push, validate_retry,
}
use gcp_emulator_provisioner.Config.Validate.Resources.{
  validate, validate_topics, validate_topics_from, validate_dead_letter_targets,
  validate_targets_from, validate_targets_of, validate_buckets, validate_buckets_from,
  valid_storage_class, validate_credentials, validate_credentials_from,
}
use gcp_emulator_provisioner.Runtime.{Runtime}

-- Exact rationals, rounded down
abbrev pub rational : Fraction
rational f unit places = f * unit / 10 ^ places

abbrev pub plain_runtime : Runtime
plain_runtime = record {
  fraction = rational;
  duration_error = λ v. v;
  parse_url = λ v. some (record { scheme = codes "https"; host = v });
  to_upper = λ v. v;
  equal_fold = λ a b. a == b;
  quote = λ v. v;
}

abbrev pub dead_lettered : Schema.Subscription
dead_lettered = record {
  name = codes "billing";
  strategy = codes "";
  ack_deadline = codes "30s";
  message_retention = codes "";
  retain_acked_messages = none;
  enable_message_ordering = none;
  enable_exactly_once_delivery = none;
  filter = codes "";
  expiration_ttl = codes "never";
  labels = [];
  push_endpoint = codes "";
  push_attributes = [];
  push_oidc_token = none;
  push_wrapper = codes "";
  push_write_metadata = false;
  dead_letter = some (record { topic = codes "dead"; max_delivery_attempts = pos 5 });
  retry = none;
}

abbrev pub orders : Schema.Topic
orders = record {
  name = codes "orders";
  strategy = codes "";
  labels = (codes "env", codes "dev") ∷ [];
  message_retention = codes "1h";
  subscriptions = dead_lettered ∷ [];
}

abbrev pub dead : Schema.Topic
dead = record {
  name = codes "dead";
  strategy = codes "create";
  labels = [];
  message_retention = codes "";
  subscriptions = [];
}

abbrev pub archive : Schema.Bucket
archive = record {
  name = codes "archive";
  strategy = codes "";
  versioning = none;
  location = codes "";
  storage_class = codes "";
}

abbrev pub shop : Schema.Config
shop = record {
  strategy = codes "update";
  project_id = codes "local-dev";
  pubsub = record { topics = orders ∷ dead ∷ [] };
  storage = record { buckets = archive ∷ [] };
  credentials = [];
}

pub shop_topics_valid : validate_topics plain_runtime (orders ∷ dead ∷ []) ≡ ok tt
unfolding validate_topics validate_topics_from validate_strategy valid_strategy validate_name
    contains_null_byte matches_resource_name has_prefix validate_labels validate_duration_range
    validate_duration parsed parse_duration text_dec validate_subscriptions
    validate_subscriptions_from validate_settings validate_ack_deadline days_duration trim_d atoi
    decimal time_parse_duration is_name_char validate_dead_letter_targets validate_targets_from
    validate_targets_of valid_push_wrapper validate_dead_letter validate_expiration_ttl
    validate_oidc_token validate_push validate_retry to_int64 ◌*ℤ◌
shop_topics_valid = refl

pub shop_valid : validate plain_runtime shop ≡ ok tt
unfolding validate validate_buckets validate_buckets_from valid_storage_class validate_credentials
    validate_credentials_from valid_strategy validate_strategy contains_null_byte
    matches_bucket_name matches_project_id ends_alphanumeric is_label_char text_dec
shop_valid = rw shop_topics_valid refl
