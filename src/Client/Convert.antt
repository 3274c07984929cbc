-- ===== src/Client/Convert.antt =====
-- `toProtoSubscription`, `fromProtoSubscription` and what they call in internal/client/pubsub.go.
pub mod Laws
use gcp_emulator_provisioner.Prelude.{Bool, true, false, Option, none, some, Text, if◌then◌else◌}
use gcp_emulator_provisioner.Prelude.Int.{ℤ, pos, ltb_ℤ, ◌*ℤ◌, to_int64}
use gcp_emulator_provisioner.Config.GoTime.{Duration, second}
use gcp_emulator_provisioner.Client.Resources.{
  Topic, Subscription, PushConfig, OidcToken, Wrapper, wrapper_unset, wrapper_pubsub, wrapper_none,
  DeadLetterPolicy, RetryPolicy, deref_bool, bool_ptr,
}
use gcp_emulator_provisioner.Client.Messages.{
  Durations, TopicMessage, ExpirationPolicyMessage, OidcTokenMessage, WrapperMessage,
  pubsub_wrapper, no_wrapper, PushConfigMessage, DeadLetterPolicyMessage, RetryPolicyMessage,
  SubscriptionMessage,
}
use gcp_emulator_provisioner.Client.Paths.{topic_path, subscription_path, short_name}

unfoldable pub to_proto_oidc_token : Option OidcToken → Option OidcTokenMessage
to_proto_oidc_token none = none
to_proto_oidc_token (some t) =
    some (record { service_account_email = t.service_account_email; audience = t.audience })

-- The switch over `p.Wrapper`
unfoldable pub to_proto_wrapper : Wrapper → Bool → Option WrapperMessage
to_proto_wrapper wrapper_pubsub write_metadata = some pubsub_wrapper
to_proto_wrapper wrapper_none write_metadata = some (no_wrapper write_metadata)
to_proto_wrapper wrapper_unset write_metadata = none

unfoldable pub to_proto_push_config : PushConfig → PushConfigMessage
to_proto_push_config p = record {
  push_endpoint = p.endpoint;
  attributes = p.attributes;
  oidc_token = to_proto_oidc_token p.oidc_token;
  wrapper = to_proto_wrapper p.wrapper p.write_metadata;
}

unfoldable pub from_proto_oidc_token : Option OidcTokenMessage → Option OidcToken
from_proto_oidc_token none = none
from_proto_oidc_token (some t) =
    some (record { service_account_email = t.service_account_email; audience = t.audience })

-- The wrapper and `WriteMetadata`
unfoldable pub from_proto_wrapper : Option WrapperMessage → Wrapper × Bool
from_proto_wrapper none = (wrapper_unset, false)
from_proto_wrapper (some (no_wrapper write_metadata)) = (wrapper_none, write_metadata)
from_proto_wrapper (some pubsub_wrapper) = (wrapper_pubsub, false)

unfoldable pub from_proto_push_config : Option PushConfigMessage → Option PushConfig
from_proto_push_config none = none
from_proto_push_config (some pc) =
    let (wrapper, write_metadata) = from_proto_wrapper pc.wrapper in
    some (record {
      endpoint = pc.push_endpoint;
      attributes = pc.attributes;
      oidc_token = from_proto_oidc_token pc.oidc_token;
      wrapper = wrapper;
      write_metadata = write_metadata;
    })

unfoldable pub to_proto_push : Option PushConfig → Option PushConfigMessage
to_proto_push none = none
to_proto_push (some p) = some (to_proto_push_config p)

unfoldable pub to_proto_dead_letter :
    Text → Option DeadLetterPolicy → Option DeadLetterPolicyMessage
to_proto_dead_letter project_id none = none
to_proto_dead_letter project_id (some p) = some (record {
  dead_letter_topic = topic_path project_id p.topic;
  max_delivery_attempts = p.max_delivery_attempts;
})

-- `time.Duration(s.GetAckDeadlineSeconds()) * time.Second`
unfoldable pub from_proto_ack_deadline : ℤ → Duration
from_proto_ack_deadline seconds = to_int64 (seconds *ℤ pos second)

unfoldable pub from_proto_dead_letter : Option DeadLetterPolicyMessage → Option DeadLetterPolicy
from_proto_dead_letter none = none
from_proto_dead_letter (some p) = some (record {
  topic = short_name p.dead_letter_topic;
  max_delivery_attempts = p.max_delivery_attempts;
})

module _ {D : Type 0} (lib : Durations D) where
  -- `if d > 0 { field = durationpb.New(d) }`
  unfoldable pub set_duration : Duration → Option D
  set_duration d = if ltb_ℤ (pos 0) d then some (lib.new d) else none

  unfoldable pub to_proto_topic : Text → Topic → TopicMessage D
  to_proto_topic project_id t = record {
    name = topic_path project_id t.name;
    labels = t.labels;
    message_retention_duration = set_duration t.message_retention;
  }

  unfoldable pub from_proto_topic : TopicMessage D → Topic
  from_proto_topic t = record {
    name = short_name t.name;
    labels = t.labels;
    message_retention = lib.as_duration t.message_retention_duration;
  }

  unfoldable pub to_proto_ack_deadline : Duration → ℤ
  to_proto_ack_deadline d = if ltb_ℤ (pos 0) d then lib.whole_seconds d else pos 0

  unfoldable pub to_proto_expiration : Bool → Duration → Option (ExpirationPolicyMessage D)
  to_proto_expiration expiration_set ttl =
      if expiration_set then some (record { ttl = set_duration ttl }) else none

  unfoldable pub to_proto_retry : Option RetryPolicy → Option (RetryPolicyMessage D)
  to_proto_retry none = none
  to_proto_retry (some p) = some (record {
    minimum_backoff = set_duration p.minimum_backoff;
    maximum_backoff = set_duration p.maximum_backoff;
  })

  unfoldable pub to_proto_subscription : Text → Subscription → SubscriptionMessage D
  to_proto_subscription project_id s = record {
    name = subscription_path project_id s.name;
    topic = topic_path project_id s.topic;
    ack_deadline_seconds = to_proto_ack_deadline s.ack_deadline;
    message_retention_duration = set_duration s.message_retention;
    retain_acked_messages = deref_bool s.retain_acked_messages;
    enable_message_ordering = deref_bool s.enable_message_ordering;
    enable_exactly_once_delivery = deref_bool s.enable_exactly_once_delivery;
    filter = s.filter;
    expiration_policy = to_proto_expiration s.expiration_set s.expiration_ttl;
    labels = s.labels;
    push_config = to_proto_push s.push;
    dead_letter_policy = to_proto_dead_letter project_id s.dead_letter;
    retry_policy = to_proto_retry s.retry;
  }

  -- `ExpirationSet` and `ExpirationTTL`
  unfoldable pub from_proto_expiration : Option (ExpirationPolicyMessage D) → Bool × Duration
  from_proto_expiration none = (false, pos 0)
  from_proto_expiration (some p) = (true, lib.as_duration p.ttl)

  unfoldable pub from_proto_retry : Option (RetryPolicyMessage D) → Option RetryPolicy
  from_proto_retry none = none
  from_proto_retry (some p) = some (record {
    minimum_backoff = lib.as_duration p.minimum_backoff;
    maximum_backoff = lib.as_duration p.maximum_backoff;
  })

  unfoldable pub from_proto_subscription : SubscriptionMessage D → Subscription
  from_proto_subscription s =
      let (expiration_set, ttl) = from_proto_expiration s.expiration_policy in
      record {
        name = short_name s.name;
        topic = short_name s.topic;
        ack_deadline = from_proto_ack_deadline s.ack_deadline_seconds;
        message_retention = lib.as_duration s.message_retention_duration;
        retain_acked_messages = bool_ptr s.retain_acked_messages;
        enable_message_ordering = bool_ptr s.enable_message_ordering;
        enable_exactly_once_delivery = bool_ptr s.enable_exactly_once_delivery;
        filter = s.filter;
        expiration_set = expiration_set;
        expiration_ttl = ttl;
        labels = s.labels;
        push = from_proto_push_config s.push_config;
        dead_letter = from_proto_dead_letter s.dead_letter_policy;
        retry = from_proto_retry s.retry_policy;
      }
