-- ===== src/Provisioner/Readback/Keeps.antt =====
-- What a Pub/Sub service keeps of a subscription that it creates, field by field of its message.
use gcp_emulator_provisioner.Prelude.{
  zero, suc, ◌≡◌, refl, ◌∙◌, ap, ◌≢◌, ◌⊎◌, inl, inr, Bool, true, false, not, ◌&&◌, ◌||◌, Option,
  none, some, arith, Text,
}
use gcp_emulator_provisioner.Prelude.Int.{ℤ, pos, ltb_ℤ, eq_ℤ, eq_ℤ-refl}
use gcp_emulator_provisioner.Config.GoTime.{Duration}
use gcp_emulator_provisioner.Client.Resources.{
  PushConfig, DeadLetterPolicy, RetryPolicy, deref_bool,
}
use gcp_emulator_provisioner.Client.Paths.{short_name}
use gcp_emulator_provisioner.Client.Paths.Laws.{short_name-topic_path}
use gcp_emulator_provisioner.Client.Messages.{
  Durations, SubscriptionMessage, PushConfigMessage, DeadLetterPolicyMessage, RetryPolicyMessage,
  ExpirationPolicyMessage,
}
use gcp_emulator_provisioner.Client.Convert.{
  set_duration, to_proto_ack_deadline, to_proto_expiration, to_proto_push, to_proto_dead_letter,
  to_proto_retry, from_proto_ack_deadline, from_proto_expiration, from_proto_push_config,
  from_proto_dead_letter, from_proto_retry,
}
use gcp_emulator_provisioner.Client.Convert.Laws.{
  IsNonnegative, IsWholeSeconds, HasExpiration, HasWrapper, HasTarget, HasBackoffs,
  ack_deadline_back, duration_back, push_back,
}
use gcp_emulator_provisioner.Provisioner.Subscriptions.Diff.{
  bool_drift, push_drift, dead_letter_equal, retry_equal, is_some,
}
use gcp_emulator_provisioner.Provisioner.Subscriptions.Drifts.{HasAttributes}
use gcp_emulator_provisioner.Provisioner.Subscriptions.Laws.{push_drift_self}

-- The service keeps a field that was sent, and may fill in one that was left out.
abbrev pub FilledIn : {A : Type 0} → Option A → Option A → Type 0
FilledIn none stored = Unit
FilledIn (some sent) stored = stored ≡ some sent

-- A number that was left out is sent as zero.
abbrev pub FilledInZero : ℤ → ℤ → Type 0
FilledInZero sent stored = (sent ≡ pos 0) ⊎ (stored ≡ sent)

abbrev pub FilledInDeadLetter :
    Option DeadLetterPolicyMessage → Option DeadLetterPolicyMessage → Type 0
FilledInDeadLetter none stored = Unit
FilledInDeadLetter (some p) stored =
    (q : DeadLetterPolicyMessage) × (stored ≡ some q)
    × (q.dead_letter_topic ≡ p.dead_letter_topic)
    × FilledInZero p.max_delivery_attempts q.max_delivery_attempts

abbrev pub FilledInRetry :
    {D : Type 0} → Option (RetryPolicyMessage D) → Option (RetryPolicyMessage D) → Type 0
FilledInRetry none stored = Unit
FilledInRetry {D} (some p) stored =
    (q : RetryPolicyMessage D) × (stored ≡ some q)
    × FilledIn p.minimum_backoff q.minimum_backoff
    × FilledIn p.maximum_backoff q.maximum_backoff

-- What a service stores of a message that it creates a subscription from
pub record Completes {D : Type 0} (sent stored : SubscriptionMessage D) : Type 0 where
  pub name : stored.name ≡ sent.name
  pub topic : stored.topic ≡ sent.topic
  pub filter : stored.filter ≡ sent.filter
  pub labels : stored.labels ≡ sent.labels
  pub retain_acked_messages : stored.retain_acked_messages ≡ sent.retain_acked_messages
  pub enable_message_ordering : stored.enable_message_ordering ≡ sent.enable_message_ordering
  pub enable_exactly_once_delivery :
      stored.enable_exactly_once_delivery ≡ sent.enable_exactly_once_delivery
  pub ack_deadline : FilledInZero sent.ack_deadline_seconds stored.ack_deadline_seconds
  pub message_retention : FilledIn sent.message_retention_duration stored.message_retention_duration
  pub expiration : FilledIn sent.expiration_policy stored.expiration_policy
  pub push : FilledIn sent.push_config stored.push_config
  pub dead_letter : FilledInDeadLetter sent.dead_letter_policy stored.dead_letter_policy
  pub retry : FilledInRetry sent.retry_policy stored.retry_policy

-- A dead letter or retry block that the configuration has states each of its fields.
abbrev pub StatesAttempts : Option DeadLetterPolicy → Type 0
StatesAttempts none = Unit
StatesAttempts (some p) = p.max_delivery_attempts ≢ pos 0

abbrev pub StatesBackoffs : Option RetryPolicy → Type 0
StatesBackoffs none = Unit
StatesBackoffs (some p) =
    (ltb_ℤ (pos 0) p.minimum_backoff ≡ true) × (ltb_ℤ (pos 0) p.maximum_backoff ≡ true)

pub flag_keeps : (b : Option Bool) → bool_drift (some (deref_bool b)) b ≡ false
unfolding bool_drift
flag_keeps none = refl
flag_keeps (some true) = refl
flag_keeps (some false) = refl

pub push_keeps :
    (p : Option PushConfig) (stored : Option PushConfigMessage)
    → HasWrapper p
    → HasAttributes p
    → FilledIn (to_proto_push p) stored
    → push_drift (from_proto_push_config stored) p ≡ false
unfolding to_proto_push
push_keeps none stored h a kept = refl
push_keeps (some p) stored h a kept =
    let e : from_proto_push_config stored ≡ some p =
      ap from_proto_push_config kept ∙ push_back (some p) h in
    ap (λ c. push_drift c (some p)) e ∙ push_drift_self (some p) a

pub dead_letter_keeps :
    (project_id : Text) (p : Option DeadLetterPolicy) (stored : Option DeadLetterPolicyMessage)
    → HasTarget p
    → StatesAttempts p
    → FilledInDeadLetter (to_proto_dead_letter project_id p) stored
    → (is_some p && not (dead_letter_equal (from_proto_dead_letter stored) p)) ≡ false
unfolding to_proto_dead_letter from_proto_dead_letter dead_letter_equal
dead_letter_keeps project_id none stored h states kept = refl
dead_letter_keeps project_id (some p) stored h states (q, e, t, inl z) = absurd (states z)
dead_letter_keeps project_id (some p) stored h states (q, e, t, inr m) =
    let topic : short_name q.dead_letter_topic ≡ p.topic =
      ap short_name t ∙ (short_name-topic_path project_id p.topic h).0 in
    ground (arith, eq_ℤ-refl p.max_delivery_attempts)

module _ {D : Type 0} (lib : Durations D) where
  pub ack_deadline_keeps :
      (d : Duration) (stored : ℤ)
      → IsWholeSeconds d
      → FilledInZero (to_proto_ack_deadline lib d) stored
      → (ltb_ℤ (pos 0) d && not (eq_ℤ (from_proto_ack_deadline stored) d)) ≡ false
  ack_deadline_keeps d stored (k, l, e) (inr kept) =
      let same = ap from_proto_ack_deadline kept ∙ ack_deadline_back lib d (k, l, e) in
      rw same (ground (arith, eq_ℤ-refl d))
  ack_deadline_keeps d stored (zero, l, e) (inl z) = rw e (ground arith)
  ack_deadline_keeps d stored (suc k, l, e) (inl z) =
      absurd (unfold to_proto_ack_deadline in ground (arith, lib.whole_seconds-second (suc k) l))

  pub duration_keeps :
      (d : Duration) (stored : Option D)
      → IsNonnegative d
      → FilledIn (set_duration lib d) stored
      → (ltb_ℤ (pos 0) d && not (eq_ℤ (lib.as_duration stored) d)) ≡ false
  unfolding set_duration
  duration_keeps d stored (zero, e) kept = rw e (ground arith)
  duration_keeps d stored (suc n, e) kept =
      ground (arith, lib.as_duration-new (pos (suc n)), eq_ℤ-refl d)

  pub expiration_keeps :
      (set : Bool) (ttl : Duration) (stored : Option (ExpirationPolicyMessage D))
      → HasExpiration set ttl
      → FilledIn (to_proto_expiration lib set ttl) stored
      → let found = from_proto_expiration lib stored in
        (set && (not found.0 || not (eq_ℤ found.1 ttl))) ≡ false
  unfolding to_proto_expiration from_proto_expiration
  expiration_keeps false ttl stored h kept = refl
  expiration_keeps true ttl stored h kept =
      rw (kept, duration_back lib ttl h) (ground (arith, eq_ℤ-refl ttl))

  backoff_keeps :
      (d : Duration) (stored : Option D)
      → IsNonnegative d
      → ltb_ℤ (pos 0) d ≡ true
      → FilledIn (set_duration lib d) stored
      → eq_ℤ (lib.as_duration stored) d ≡ true
  backoff_keeps d stored h states kept = ground (arith, duration_keeps d stored h kept)

  pub retry_keeps :
      (p : Option RetryPolicy) (stored : Option (RetryPolicyMessage D))
      → HasBackoffs p
      → StatesBackoffs p
      → FilledInRetry (to_proto_retry lib p) stored
      → (is_some p && not (retry_equal (from_proto_retry lib stored) p)) ≡ false
  unfolding to_proto_retry from_proto_retry retry_equal
  retry_keeps none stored h states kept = refl
  retry_keeps (some p) stored (low, high) (sets_low, sets_high) (q, e, kept_low, kept_high) =
      rw
        (
          e,
          backoff_keeps p.minimum_backoff q.minimum_backoff low sets_low kept_low,
          backoff_keeps p.maximum_backoff q.maximum_backoff high sets_high kept_high,
        )
        refl
