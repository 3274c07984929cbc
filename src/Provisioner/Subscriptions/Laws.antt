-- ===== src/Provisioner/Subscriptions/Laws.antt =====
-- What an update of a subscription leaves to the next comparison.
use gcp_emulator_provisioner.Prelude.{
  ◌≡◌, refl, ◌∙◌, ◌≢◌, Bool, true, false, not, ◌&&◌, Option, none, some, [], arith,
}
use gcp_emulator_provisioner.Prelude.Int.{eq_ℤ-refl}
use gcp_emulator_provisioner.Client.Resources.{
  Subscription, PushConfig, OidcToken, DeadLetterPolicy, RetryPolicy, FieldPath,
  ack_deadline_seconds, message_retention_duration, retain_acked_messages,
  enable_exactly_once_delivery, expiration_policy, labels, push_config, dead_letter_policy,
  retry_policy,
}
use gcp_emulator_provisioner.Provisioner.Labels.Laws.{
  labels_subset-merge_labels, labels_subset_refl,
}
use gcp_emulator_provisioner.Provisioner.Update.Masks.{
  supported, refused, set_all, drifted-set_all, drifted_of_none,
}
use gcp_emulator_provisioner.Provisioner.Subscriptions.Diff.{
  bool_drift, oidc_equal, push_config_equal, push_drift, dead_letter_equal, retry_equal, is_some,
  diff_subscription,
}
use gcp_emulator_provisioner.Provisioner.Subscriptions.Ensure.{merge_push, merge_subscription}
use gcp_emulator_provisioner.Provisioner.Subscriptions.Drifts.{
  set_subscription, drifts, mutable_paths, diff_subscription-eq-drifted, HasAttributes, HasMaps,
  IsFilled,
}

drifts_apart :
    (desired sent : Subscription) (p q : FieldPath) (r : Subscription)
    → p ≢ q
    → drifts desired p (set_subscription sent q r) ≡ drifts desired p r
drifts_apart desired sent ack_deadline_seconds ack_deadline_seconds r h = absurd (h refl)
drifts_apart desired sent message_retention_duration message_retention_duration r h =
    absurd (h refl)
drifts_apart desired sent retain_acked_messages retain_acked_messages r h = absurd (h refl)
drifts_apart desired sent enable_exactly_once_delivery enable_exactly_once_delivery r h =
    absurd (h refl)
drifts_apart desired sent expiration_policy expiration_policy r h = absurd (h refl)
drifts_apart desired sent labels labels r h = absurd (h refl)
drifts_apart desired sent push_config push_config r h = absurd (h refl)
drifts_apart desired sent dead_letter_policy dead_letter_policy r h = absurd (h refl)
drifts_apart desired sent retry_policy retry_policy r h = absurd (h refl)
drifts_apart desired sent p q r h = refl

oidc_equal_refl : (t : Option OidcToken) → oidc_equal t t ≡ true
unfolding oidc_equal
oidc_equal_refl none = refl
oidc_equal_refl (some t) = ground arith

push_settles :
    (current desired : Option PushConfig)
    → HasAttributes current
    → HasAttributes desired
    → push_drift (merge_push current desired) desired ≡ false
unfolding merge_push push_config_equal
push_settles none none hc hd = refl
push_settles none (some d) hc hd =
    ground (arith, labels_subset_refl d.attributes hd, oidc_equal_refl d.oidc_token)
push_settles (some c) none hc hd = refl
push_settles (some c) (some d) hc hd = ground (
  arith,
  labels_subset-merge_labels c.attributes d.attributes hc hd,
  oidc_equal_refl d.oidc_token,
)

dead_letter_settles :
    (d : Option DeadLetterPolicy) → (is_some d && not (dead_letter_equal d d)) ≡ false
unfolding dead_letter_equal
dead_letter_settles none = refl
dead_letter_settles (some d) = ground (arith, eq_ℤ-refl d.max_delivery_attempts)

retry_settles : (d : Option RetryPolicy) → (is_some d && not (retry_equal d d)) ≡ false
unfolding retry_equal
retry_settles none = refl
retry_settles (some d) = ground (arith, eq_ℤ-refl d.minimum_backoff, eq_ℤ-refl d.maximum_backoff)

module _ (fill : Subscription → Subscription) (current desired : Subscription)
    (filled : IsFilled fill (merge_subscription current desired)) (hc : HasMaps current)
    (hd : HasMaps desired) where
  push_filled :
      (live wanted : Option PushConfig)
      → HasAttributes live
      → HasAttributes wanted
      → ((p : PushConfig)
          → merge_push live wanted ≡ some p
          → (fill (merge_subscription current desired)).push ≡ some p)
      → push_drift (fill (merge_subscription current desired)).push wanted ≡ false
  unfolding merge_push
  push_filled live none hl hw kept = refl
  push_filled none (some d) hl hw kept = rw (kept d refl) (push_settles none (some d) hl hw)
  push_filled (some c) (some d) hl hw kept = rw (kept _ refl) (push_settles (some c) (some d) hl hw)

  drifts_settle :
      (p : FieldPath) (r : Subscription)
      → drifts desired p (set_subscription (fill (merge_subscription current desired)) p r) ≡ false
  unfolding merge_subscription
  drifts_settle ack_deadline_seconds r = filled.others ack_deadline_seconds
  drifts_settle message_retention_duration r = filled.others message_retention_duration
  drifts_settle retain_acked_messages r = filled.others retain_acked_messages
  drifts_settle enable_exactly_once_delivery r = filled.others enable_exactly_once_delivery
  drifts_settle expiration_policy r = filled.others expiration_policy
  drifts_settle labels r =
      rw filled.labels (
        ground
          (arith, labels_subset-merge_labels current.labels desired.labels hc.labels hd.labels))
  drifts_settle push_config r =
      push_filled current.push desired.push hc.attributes hd.attributes filled.push
  drifts_settle dead_letter_policy r = filled.others dead_letter_policy
  drifts_settle retry_policy r = filled.others retry_policy

-- After one update of a subscription, in which the service applied the paths that it supports and
-- kept what the update states, the next comparison finds exactly the paths that it refused. With every
-- path supported it finds none.
pub diff_subscription-set_all :
    (fill : Subscription → Subscription) (supports : FieldPath → Bool)
    (current desired : Subscription)
    → IsFilled fill (merge_subscription current desired)
    → HasMaps current
    → HasMaps desired
    → diff_subscription
        (set_all
          (set_subscription (fill (merge_subscription current desired)))
          (supported supports (diff_subscription current desired))
          current)
        desired
      ≡ refused supports (diff_subscription current desired)
diff_subscription-set_all fill supports current desired filled hc hd =
    rw (diff_subscription-eq-drifted current desired, diff_subscription-eq-drifted)
      (drifted-set_all (drifts desired)
        (set_subscription (fill (merge_subscription current desired)))
        (drifts_settle fill current desired filled hc hd)
        (drifts_apart desired (fill (merge_subscription current desired))) supports mutable_paths
        current)

pub push_drift_self : (p : Option PushConfig) → HasAttributes p → push_drift p p ≡ false
unfolding push_config_equal
push_drift_self none h = refl
push_drift_self (some d) h =
    ground (arith, labels_subset_refl d.attributes h, oidc_equal_refl d.oidc_token)

flag_self : (b : Option Bool) → bool_drift b b ≡ false
unfolding bool_drift
flag_self none = refl
flag_self (some b) = ground arith

drifts_self : (s : Subscription) → HasMaps s → (p : FieldPath) → drifts s p s ≡ false
drifts_self s h ack_deadline_seconds = ground (arith, eq_ℤ-refl s.ack_deadline)
drifts_self s h message_retention_duration = ground (arith, eq_ℤ-refl s.message_retention)
drifts_self s h retain_acked_messages = flag_self s.retain_acked_messages
drifts_self s h enable_exactly_once_delivery = flag_self s.enable_exactly_once_delivery
drifts_self s h expiration_policy = ground (arith, eq_ℤ-refl s.expiration_ttl)
drifts_self s h labels = ground (arith, labels_subset_refl s.labels h.labels)
drifts_self s h push_config = push_drift_self s.push h.attributes
drifts_self s h dead_letter_policy = dead_letter_settles s.dead_letter
drifts_self s h retry_policy = retry_settles s.retry

-- A service that keeps a subscription as it was sent
pub as_sent-IsFilled : (s : Subscription) → HasMaps s → IsFilled (λ d. d) s
as_sent-IsFilled s h = record { labels = refl; push = λ p e. e; others = drifts_self s h }

-- A subscription does not drift from what a service made of it.
pub diff_subscription-IsFilled :
    (fill : Subscription → Subscription) (s : Subscription)
    → IsFilled fill s
    → diff_subscription (fill s) s ≡ []
diff_subscription-IsFilled fill s h =
    diff_subscription-eq-drifted (fill s) s
    ∙ drifted_of_none (drifts s) mutable_paths (fill s) h.others
