-- ===== src/Provisioner/Subscriptions/Build.antt =====
-- `buildSubscription` and `buildPushConfig` of internal/provisioner/subscriptions.go.
pub mod Laws
use gcp_emulator_provisioner.Prelude.{
  Bool, true, false, Option, none, some, Text, ok, Result, ◌>>=◌, ◌==◌, is_empty, if◌then◌else◌,
}
use gcp_emulator_provisioner.Prelude.Int.{pos, to_int32}
use gcp_emulator_provisioner.Config.Schema
use gcp_emulator_provisioner.Config.GoTime.{Duration}
use gcp_emulator_provisioner.Config.Validate.Subscriptions.{
  push_wrapper_pubsub, push_wrapper_none, expiration_never,
}
use gcp_emulator_provisioner.Client.Resources.{
  Subscription, PushConfig, OidcToken, Wrapper, wrapper_unset, wrapper_pubsub, wrapper_none,
  DeadLetterPolicy, RetryPolicy,
}
use gcp_emulator_provisioner.Client.Errors.{
  Error, parsing_message_retention, parsing_ack_deadline, parsing_expiration_ttl,
  parsing_minimum_backoff, parsing_maximum_backoff,
}
use gcp_emulator_provisioner.Provisioner.Topics.{built_duration}
use gcp_emulator_provisioner.Runtime.{Runtime}

abbrev build_oidc_token : Option Schema.PushOidcToken → Option OidcToken
build_oidc_token none = none
build_oidc_token (some t) =
    some (record { service_account_email = t.service_account_email; audience = t.audience })

unfoldable pub build_wrapper : Text → Wrapper
build_wrapper w =
    if w == push_wrapper_pubsub
    then wrapper_pubsub
    else if w == push_wrapper_none
    then wrapper_none
    else wrapper_unset

unfoldable pub build_push_config : Schema.Subscription → Option PushConfig
unfolding build_wrapper
build_push_config s =
    if is_empty s.push_endpoint
    then none
    else some (record {
      endpoint = s.push_endpoint;
      attributes = s.push_attributes;
      oidc_token = build_oidc_token s.push_oidc_token;
      wrapper = build_wrapper s.push_wrapper;
      write_metadata = s.push_write_metadata;
    })

unfoldable pub build_dead_letter : Option Schema.DeadLetter → Option DeadLetterPolicy
unfolding to_int32
build_dead_letter none = none
build_dead_letter (some dl) =
    some (record { topic = dl.topic; max_delivery_attempts = to_int32 dl.max_delivery_attempts })

module _ (rt : Runtime) where
  -- `ExpirationSet` and `ExpirationTTL`
  unfoldable pub build_expiration : Text → Result Error (Bool × Duration)
  build_expiration value =
      if is_empty value
      then ok (false, pos 0)
      else if value == expiration_never
      then ok (true, pos 0)
      else (do ttl ← built_duration rt parsing_expiration_ttl value; ok (true, ttl))

  unfoldable pub build_retry : Option Schema.Retry → Result Error (Option RetryPolicy)
  build_retry none = ok none
  build_retry (some r) = do
    low ← built_duration rt parsing_minimum_backoff r.minimum_backoff
    high ← built_duration rt parsing_maximum_backoff r.maximum_backoff
    ok (some (record { minimum_backoff = low; maximum_backoff = high }))

  unfoldable pub build_subscription : Text → Schema.Subscription → Result Error Subscription
  build_subscription topic_name s = do
    ack_deadline ← built_duration rt parsing_ack_deadline s.ack_deadline
    retention ← built_duration rt parsing_message_retention s.message_retention
    (set, ttl) ← build_expiration s.expiration_ttl
    retry ← build_retry s.retry
    ok (record {
      name = s.name;
      topic = topic_name;
      ack_deadline = ack_deadline;
      message_retention = retention;
      retain_acked_messages = s.retain_acked_messages;
      enable_message_ordering = s.enable_message_ordering;
      enable_exactly_once_delivery = s.enable_exactly_once_delivery;
      filter = s.filter;
      expiration_set = set;
      expiration_ttl = ttl;
      labels = s.labels;
      push = build_push_config s;
      dead_letter = build_dead_letter s.dead_letter;
      retry = retry;
    })
