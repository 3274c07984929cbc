-- ===== src/Provisioner/Subscriptions/Drifts.antt =====
-- The fields of a subscription that `diffSubscription` of internal/provisioner/subscriptions.go
-- compares: which of them drift, and what an update does to one.
use mathlib.Core.List.{append-nil, append_assoc}
use gcp_emulator_provisioner.Prelude.{
  ◌≡◌, Bool, false, not, ◌&&◌, ◌||◌, Option, none, some, List, [], ◌∷◌, DistinctKeys,
}
use gcp_emulator_provisioner.Prelude.Int.{pos, ltb_ℤ, eq_ℤ}
use gcp_emulator_provisioner.Config.Validate.Subscriptions.{no_entries}
use gcp_emulator_provisioner.Client.Resources.{
  Subscription, PushConfig, FieldPath, ack_deadline_seconds, message_retention_duration,
  retain_acked_messages, enable_exactly_once_delivery, expiration_policy, labels, push_config,
  dead_letter_policy, retry_policy,
}
use gcp_emulator_provisioner.Provisioner.Labels.{labels_subset}
use gcp_emulator_provisioner.Provisioner.Labels.Laws.{DistinctKeys-merge_labels}
use gcp_emulator_provisioner.Provisioner.Update.Masks.{drifted}
use gcp_emulator_provisioner.Provisioner.Subscriptions.Diff.{
  bool_drift, push_drift, dead_letter_equal, retry_equal, is_some, diff_subscription,
}
use gcp_emulator_provisioner.Provisioner.Subscriptions.Ensure.{merge_push, merge_subscription}

-- What the service does to a live subscription for one path of a mask: it takes the whole field
-- from the subscription that was sent.
abbrev pub set_subscription : Subscription → FieldPath → Subscription → Subscription
set_subscription sent ack_deadline_seconds live = record live { ack_deadline = sent.ack_deadline }
set_subscription sent message_retention_duration live = record live {
  message_retention = sent.message_retention;
}
set_subscription sent retain_acked_messages live = record live {
  retain_acked_messages = sent.retain_acked_messages;
}
set_subscription sent enable_exactly_once_delivery live = record live {
  enable_exactly_once_delivery = sent.enable_exactly_once_delivery;
}
set_subscription sent expiration_policy live = record live {
  expiration_set = sent.expiration_set;
  expiration_ttl = sent.expiration_ttl;
}
set_subscription sent labels live = record live { labels = sent.labels }
set_subscription sent push_config live = record live { push = sent.push }
set_subscription sent dead_letter_policy live = record live { dead_letter = sent.dead_letter }
set_subscription sent retry_policy live = record live { retry = sent.retry }

abbrev pub drifts : Subscription → FieldPath → Subscription → Bool
drifts desired ack_deadline_seconds current =
    ltb_ℤ (pos 0) desired.ack_deadline && not (eq_ℤ current.ack_deadline desired.ack_deadline)
drifts desired message_retention_duration current =
    ltb_ℤ (pos 0) desired.message_retention
    && not (eq_ℤ current.message_retention desired.message_retention)
drifts desired retain_acked_messages current =
    bool_drift current.retain_acked_messages desired.retain_acked_messages
drifts desired enable_exactly_once_delivery current =
    bool_drift current.enable_exactly_once_delivery desired.enable_exactly_once_delivery
drifts desired expiration_policy current =
    desired.expiration_set
    && (not current.expiration_set || not (eq_ℤ current.expiration_ttl desired.expiration_ttl))
drifts desired labels current =
    not (no_entries desired.labels) && not (labels_subset desired.labels current.labels)
drifts desired push_config current = push_drift current.push desired.push
drifts desired dead_letter_policy current =
    is_some desired.dead_letter && not (dead_letter_equal current.dead_letter desired.dead_letter)
drifts desired retry_policy current =
    is_some desired.retry && not (retry_equal current.retry desired.retry)

abbrev pub mutable_paths : List FieldPath
mutable_paths =
    ack_deadline_seconds ∷ message_retention_duration ∷ retain_acked_messages
    ∷ enable_exactly_once_delivery ∷ expiration_policy ∷ labels ∷ push_config ∷ dead_letter_policy
    ∷ retry_policy ∷ []

pub diff_subscription-eq-drifted :
    (current desired : Subscription)
    → diff_subscription current desired ≡ drifted (drifts desired) mutable_paths current
unfolding diff_subscription
diff_subscription-eq-drifted current desired = simp (append-nil, append_assoc)

-- The labels and push attributes of a subscription have distinct keys, as Go's maps do.
abbrev pub HasAttributes : Option PushConfig → Type 0
HasAttributes none = Unit
HasAttributes (some p) = DistinctKeys p.attributes

pub record HasMaps (s : Subscription) : Type 0 where
  pub labels : DistinctKeys s.labels
  pub attributes : HasAttributes s.push

merge_push-HasAttributes :
    (live desired : Option PushConfig)
    → HasAttributes live
    → HasAttributes desired
    → HasAttributes (merge_push live desired)
unfolding merge_push
merge_push-HasAttributes none desired hl hd = hd
merge_push-HasAttributes (some l) none hl hd = tt
merge_push-HasAttributes (some l) (some d) hl hd =
    DistinctKeys-merge_labels l.attributes d.attributes hl

pub merge_subscription-HasMaps :
    (live desired : Subscription)
    → HasMaps live
    → HasMaps desired
    → HasMaps (merge_subscription live desired)
unfolding merge_subscription
merge_subscription-HasMaps live desired hl hd = record {
  labels = DistinctKeys-merge_labels live.labels desired.labels hl.labels;
  attributes = merge_push-HasAttributes live.push desired.push hl.attributes hd.attributes;
}

-- What a service makes of a subscription that it is sent keeps what the subscription states.
pub record IsFilled (fill : Subscription → Subscription) (s : Subscription) : Type 0 where
  pub labels : (fill s).labels ≡ s.labels
  pub push : (p : PushConfig) → s.push ≡ some p → (fill s).push ≡ some p
  pub others : (p : FieldPath) → drifts s p (fill s) ≡ false
