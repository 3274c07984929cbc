-- ===== src/Provisioner/Subscriptions/Diff.antt =====
-- `immutableDrift`, `diffSubscription` and the comparisons of internal/provisioner/subscriptions.go.
use gcp_emulator_provisioner.Prelude.{
  Bool, true, false, not, ◌&&◌, ◌||◌, Option, none, some, List, [], ◌∷◌, ◌++◌, Text, codes, ◌==◌,
  is_empty, if◌then◌else◌,
}
use gcp_emulator_provisioner.Prelude.Int.{pos, ltb_ℤ, eq_ℤ}
use gcp_emulator_provisioner.Config.Validate.Subscriptions.{no_entries}
use gcp_emulator_provisioner.Client.Resources.{
  Subscription, PushConfig, OidcToken, Wrapper, wrapper_unset, wrapper_pubsub, wrapper_none,
  DeadLetterPolicy, RetryPolicy, deref_bool, FieldPath, ack_deadline_seconds,
  message_retention_duration, retain_acked_messages, enable_exactly_once_delivery,
  expiration_policy, labels, push_config, dead_letter_policy, retry_policy,
}
use gcp_emulator_provisioner.Provisioner.Labels.{labels_subset}
use gcp_emulator_provisioner.Provisioner.Update.Masks.{when}

abbrev pub eq_bool : Bool → Bool → Bool
eq_bool true b = b
eq_bool false b = not b

unfoldable pub bool_drift : Option Bool → Option Bool → Bool
bool_drift current none = false
bool_drift current (some b) = not (eq_bool (deref_bool current) b)

unfoldable pub oidc_equal : Option OidcToken → Option OidcToken → Bool
oidc_equal current none = true
oidc_equal none (some d) = false
oidc_equal (some c) (some d) =
    c.service_account_email == d.service_account_email && c.audience == d.audience

unfoldable pub effective_wrapper : Wrapper → Wrapper
effective_wrapper wrapper_unset = wrapper_pubsub
effective_wrapper w = w

abbrev pub eq_wrapper : Wrapper → Wrapper → Bool
eq_wrapper wrapper_unset wrapper_unset = true
eq_wrapper wrapper_pubsub wrapper_pubsub = true
eq_wrapper wrapper_none wrapper_none = true
eq_wrapper _ _ = false

-- The comparison of the wrappers, the last of `pushConfigEqual`
unfoldable pub wrapper_equal : PushConfig → PushConfig → Bool
unfolding effective_wrapper
wrapper_equal current desired =
    if eq_wrapper desired.wrapper wrapper_unset
    then true
    else if not (eq_wrapper (effective_wrapper current.wrapper) desired.wrapper)
    then false
    else if eq_wrapper desired.wrapper wrapper_none
        && not (eq_bool current.write_metadata desired.write_metadata)
    then false
    else true

-- The second argument is not `nil` where the code calls it.
unfoldable pub push_config_equal : Option PushConfig → PushConfig → Bool
unfolding labels_subset oidc_equal wrapper_equal
push_config_equal none desired = false
push_config_equal (some current) desired =
    if not (is_empty desired.endpoint) && not (current.endpoint == desired.endpoint)
    then false
    else if not (labels_subset desired.attributes current.attributes)
    then false
    else if not (oidc_equal current.oidc_token desired.oidc_token)
    then false
    else wrapper_equal current desired

unfoldable pub dead_letter_equal : Option DeadLetterPolicy → Option DeadLetterPolicy → Bool
dead_letter_equal none none = true
dead_letter_equal none (some b) = false
dead_letter_equal (some a) none = false
dead_letter_equal (some a) (some b) =
    a.topic == b.topic && eq_ℤ a.max_delivery_attempts b.max_delivery_attempts

unfoldable pub retry_equal : Option RetryPolicy → Option RetryPolicy → Bool
retry_equal none none = true
retry_equal none (some b) = false
retry_equal (some a) none = false
retry_equal (some a) (some b) =
    eq_ℤ a.minimum_backoff b.minimum_backoff && eq_ℤ a.maximum_backoff b.maximum_backoff

abbrev pub is_some : {A : Type 0} → Option A → Bool
is_some none = false
is_some (some a) = true

-- The names of the fields that drifted and cannot change; the values stand in the log's line only.
unfoldable pub immutable_drift : Subscription → Subscription → List Text
unfolding bool_drift
immutable_drift current desired =
    (if not (is_empty desired.filter) && not (desired.filter == current.filter)
      then codes "filter" ∷ []
      else [])
    ++ (if bool_drift current.enable_message_ordering desired.enable_message_ordering
        then codes "enable_message_ordering" ∷ []
        else [])
    ++ (if not (desired.topic == current.topic) then codes "topic" ∷ [] else [])

abbrev pub push_drift : Option PushConfig → Option PushConfig → Bool
push_drift current none = false
push_drift current (some d) = not (push_config_equal current d)

unfoldable pub diff_subscription : Subscription → Subscription → List FieldPath
unfolding bool_drift labels_subset push_config_equal dead_letter_equal retry_equal
diff_subscription current desired =
    when
      (ltb_ℤ (pos 0) desired.ack_deadline && not (eq_ℤ current.ack_deadline desired.ack_deadline))
      ack_deadline_seconds
    ++ when
        (ltb_ℤ (pos 0) desired.message_retention
          && not (eq_ℤ current.message_retention desired.message_retention))
        message_retention_duration
    ++ when (bool_drift current.retain_acked_messages desired.retain_acked_messages)
        retain_acked_messages
    ++ when (bool_drift current.enable_exactly_once_delivery desired.enable_exactly_once_delivery)
        enable_exactly_once_delivery
    ++ when
        (desired.expiration_set
          && (not current.expiration_set
              || not (eq_ℤ current.expiration_ttl desired.expiration_ttl)))
        expiration_policy
    ++ when (not (no_entries desired.labels) && not (labels_subset desired.labels current.labels))
        labels
    ++ when (push_drift current.push desired.push) push_config
    ++ when
        (is_some desired.dead_letter
          && not (dead_letter_equal current.dead_letter desired.dead_letter))
        dead_letter_policy
    ++ when (is_some desired.retry && not (retry_equal current.retry desired.retry)) retry_policy
