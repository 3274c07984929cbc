-- ===== src/Client/Convert/Laws.antt =====
-- Conversion of topics and subscriptions to messages and back, in internal/client/pubsub.go.
use gcp_emulator_provisioner.Prelude.{
  ℕ, zero, suc, ◌*◌, ◌^◌, ◌<◌, ◌≡◌, refl, Bool, true, false, Option, none, some, arith, Text,
}
use gcp_emulator_provisioner.Prelude.Int.{pos, ◌*ℤ◌, to_int64}
use gcp_emulator_provisioner.Config.GoTime.{Duration, second}
use gcp_emulator_provisioner.Config.Names.{matches_resource_name}
use gcp_emulator_provisioner.Client.Resources.{
  Topic, Subscription, PushConfig, OidcToken, Wrapper, wrapper_unset, wrapper_pubsub, wrapper_none,
  DeadLetterPolicy, RetryPolicy, deref_bool,
}
use gcp_emulator_provisioner.Client.Messages.{Durations}
use gcp_emulator_provisioner.Client.Paths.Laws.{short_name-topic_path}
use gcp_emulator_provisioner.Client.Convert.{
  to_proto_oidc_token, to_proto_wrapper, to_proto_push_config, to_proto_push, to_proto_dead_letter,
  to_proto_ack_deadline, to_proto_expiration, to_proto_retry, to_proto_topic, to_proto_subscription,
  from_proto_oidc_token, from_proto_wrapper, from_proto_push_config, from_proto_dead_letter,
  from_proto_ack_deadline, from_proto_expiration, from_proto_retry, from_proto_topic,
  from_proto_subscription, set_duration,
}

abbrev pub IsNonnegative : Duration → Type 0
IsNonnegative d = (n : ℕ) × (d ≡ pos n)

abbrev pub IsWholeSeconds : Duration → Type 0
IsWholeSeconds d = (k : ℕ) × (k < 2 ^ 31) × (d ≡ pos (k * second))

-- Only a push without wrapper may write metadata.
abbrev pub HasWrapper : Option PushConfig → Type 0
HasWrapper none = Unit
HasWrapper (some p) = p.write_metadata ≡ true → p.wrapper ≡ wrapper_none

abbrev pub HasTarget : Option DeadLetterPolicy → Type 0
HasTarget none = Unit
HasTarget (some p) = matches_resource_name p.topic ≡ true

abbrev pub HasBackoffs : Option RetryPolicy → Type 0
HasBackoffs none = Unit
HasBackoffs (some p) = IsNonnegative p.minimum_backoff × IsNonnegative p.maximum_backoff

abbrev pub HasExpiration : Bool → Duration → Type 0
HasExpiration true ttl = IsNonnegative ttl
HasExpiration false ttl = ttl ≡ pos 0

-- A subscription that a message can hold without a loss
pub record IsSendable (s : Subscription) : Type 0 where
  pub name : matches_resource_name s.name ≡ true
  pub topic : matches_resource_name s.topic ≡ true
  pub ack_deadline : IsWholeSeconds s.ack_deadline
  pub message_retention : IsNonnegative s.message_retention
  pub expiration : HasExpiration s.expiration_set s.expiration_ttl
  pub push : HasWrapper s.push
  pub dead_letter : HasTarget s.dead_letter
  pub retry : HasBackoffs s.retry

-- A topic that a message can hold without a loss
pub record IsSendableTopic (t : Topic) : Type 0 where
  pub name : matches_resource_name t.name ≡ true
  pub message_retention : IsNonnegative t.message_retention

-- What is read back of a subscription: a flag that was left out is `false`.
abbrev pub read_back : Subscription → Subscription
read_back s = record s {
  retain_acked_messages = some (deref_bool s.retain_acked_messages);
  enable_message_ordering = some (deref_bool s.enable_message_ordering);
  enable_exactly_once_delivery = some (deref_bool s.enable_exactly_once_delivery);
}

oidc_token_back : (t : Option OidcToken) → from_proto_oidc_token (to_proto_oidc_token t) ≡ t
unfolding from_proto_oidc_token to_proto_oidc_token
oidc_token_back none = refl
oidc_token_back (some t) = refl

wrapper_back :
    (w : Wrapper) (b : Bool)
    → (b ≡ true → w ≡ wrapper_none)
    → from_proto_wrapper (to_proto_wrapper w b) ≡ (w, b)
unfolding from_proto_wrapper to_proto_wrapper
wrapper_back wrapper_none b h = refl
wrapper_back wrapper_unset false h = refl
wrapper_back wrapper_pubsub false h = refl
wrapper_back wrapper_unset true h = absurd (cc (h refl))
wrapper_back wrapper_pubsub true h = absurd (cc (h refl))

pub push_back :
    (p : Option PushConfig) → HasWrapper p → from_proto_push_config (to_proto_push p) ≡ p
unfolding from_proto_push_config to_proto_push to_proto_push_config
push_back none h = refl
push_back (some p) h =
    rw (wrapper_back p.wrapper p.write_metadata h, oidc_token_back p.oidc_token) refl

dead_letter_back :
    (project_id : Text) (p : Option DeadLetterPolicy)
    → HasTarget p
    → from_proto_dead_letter (to_proto_dead_letter project_id p) ≡ p
unfolding from_proto_dead_letter to_proto_dead_letter
dead_letter_back project_id none h = refl
dead_letter_back project_id (some p) h = rw (short_name-topic_path project_id p.topic h).0 refl

ack_deadline_value : (k : ℕ) → k < 2 ^ 31 → from_proto_ack_deadline (pos k) ≡ pos (k * second)
unfolding from_proto_ack_deadline ◌*ℤ◌ to_int64
ack_deadline_value k h = ground arith

module _ {D : Type 0} (lib : Durations D) where
  pub duration_back : (d : Duration) → IsNonnegative d → lib.as_duration (set_duration lib d) ≡ d
  unfolding set_duration
  duration_back d (zero, e) = rw e lib.as_duration-none
  duration_back d (suc n, e) = ground (arith, lib.as_duration-new (pos (suc n)))

  pub ack_deadline_back :
      (d : Duration) → IsWholeSeconds d → from_proto_ack_deadline (to_proto_ack_deadline lib d) ≡ d
  unfolding to_proto_ack_deadline
  ack_deadline_back d (zero, l, e) = rw e (ack_deadline_value 0 l)
  ack_deadline_back d (suc k, l, e) =
      ground (arith, lib.whole_seconds-second (suc k) l, ack_deadline_value (suc k) l)

  expiration_back :
      (set : Bool) (ttl : Duration)
      → HasExpiration set ttl
      → from_proto_expiration lib (to_proto_expiration lib set ttl) ≡ (set, ttl)
  unfolding from_proto_expiration to_proto_expiration
  expiration_back true ttl h = rw (duration_back ttl h) refl
  expiration_back false ttl h = rw h refl

  retry_back :
      (p : Option RetryPolicy) → HasBackoffs p → from_proto_retry lib (to_proto_retry lib p) ≡ p
  unfolding from_proto_retry to_proto_retry
  retry_back none h = refl
  retry_back (some p) (low, high) =
      rw (duration_back p.minimum_backoff low, duration_back p.maximum_backoff high) refl

  -- A topic whose name passed validation and whose retention is not negative is read back from its
  -- message as it was.
  pub from_proto_topic-to_proto_topic :
      (project_id : Text) (t : Topic)
      → IsSendableTopic t
      → from_proto_topic lib (to_proto_topic lib project_id t) ≡ t
  unfolding from_proto_topic to_proto_topic
  from_proto_topic-to_proto_topic project_id t h =
      rw
        (
          (short_name-topic_path project_id t.name h.name).0,
          duration_back t.message_retention h.message_retention,
        )
        refl

  pub from_proto_subscription-to_proto_subscription :
      (project_id : Text) (s : Subscription)
      → IsSendable s
      → from_proto_subscription lib (to_proto_subscription lib project_id s) ≡ read_back s
  unfolding from_proto_subscription to_proto_subscription
  from_proto_subscription-to_proto_subscription project_id s h =
      rw
        (
          (short_name-topic_path project_id s.name h.name).1,
          (short_name-topic_path project_id s.topic h.topic).0,
          ack_deadline_back s.ack_deadline h.ack_deadline,
          duration_back s.message_retention h.message_retention,
          expiration_back s.expiration_set s.expiration_ttl h.expiration,
          push_back s.push h.push,
          dead_letter_back project_id s.dead_letter h.dead_letter,
          retry_back s.retry h.retry,
        )
        refl
