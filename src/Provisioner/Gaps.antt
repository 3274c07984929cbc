-- ===== src/Provisioner/Gaps.antt =====
-- Where the comparisons of internal/provisioner read an omitted value as a value.
use gcp_emulator_provisioner.Prelude.{
  ◌≡◌, refl, sym, ap, ◌∙◌, ◌≢◌, Bool, Bool-cases, inl, inr, not, ◌&&◌, ◌||◌, none, some, List, [],
  ◌∷◌, arith, Dict, lookup, get_or_empty, All, true, is_empty, ◌==◌, if◌then◌else◌,
}
use gcp_emulator_provisioner.Prelude.Int.{pos, eq_ℤ-eq}
use gcp_emulator_provisioner.Client.Resources.{
  Topic, Subscription, RetryPolicy, PushConfig, wrapper_unset, FieldPath, ack_deadline_seconds,
  message_retention_duration, retain_acked_messages, enable_exactly_once_delivery,
  expiration_policy, labels, push_config, dead_letter_policy, retry_policy,
}
use gcp_emulator_provisioner.Provisioner.Labels.{labels_subset, merge_labels}
use gcp_emulator_provisioner.Provisioner.Topics.{diff_topic}
use gcp_emulator_provisioner.Provisioner.Subscriptions.Diff.{
  retry_equal, oidc_equal, wrapper_equal, push_config_equal, push_drift, diff_subscription,
}
use gcp_emulator_provisioner.Provisioner.Update.Masks.{
  set_all, named, named-drifted, drifted_of_named,
}
use gcp_emulator_provisioner.Provisioner.Subscriptions.Drifts.{
  drifts, mutable_paths, diff_subscription-eq-drifted, set_subscription,
}
use gcp_emulator_provisioner.Provisioner.Subscriptions.Ensure.{merge_push, merge_subscription}

-- Labels without a value, none of which stands on the resource
abbrev BlankAndAbsent : Dict → Dict → Type 0
BlankAndAbsent want got = All (λ (k, v). (v ≡ []) × (lookup k got ≡ none)) want

blank_subset : (want got : Dict) → BlankAndAbsent want got → labels_subset want got ≡ true
unfolding labels_subset get_or_empty
blank_subset [] got h = refl
blank_subset ((k, v) ∷ want) got ((e, gone), h) = ground (arith, blank_subset want got h)

-- A topic whose configuration sets no retention and only labels without a value, none of which the
-- live topic has, does not drift.
pub diff_topic_blank :
    (current desired : Topic)
    → desired.message_retention ≡ pos 0
    → BlankAndAbsent desired.labels current.labels
    → diff_topic current desired ≡ []
unfolding diff_topic
diff_topic_blank current desired e h =
    rw (e, blank_subset desired.labels current.labels h) (ground arith)

-- A subscription whose configured retry policy sets no maximum drifts from every live one with a
-- maximum that is not zero, whatever the rest of the two says.
pub diff_subscription_retry :
    (current desired : Subscription) (live r : RetryPolicy)
    → current.retry ≡ some live
    → desired.retry ≡ some r
    → r.maximum_backoff ≡ pos 0
    → live.maximum_backoff ≢ pos 0
    → diff_subscription current desired ≢ []
unfolding retry_equal
diff_subscription_retry current desired live r c d e h same =
    drifted_of_named (drifts desired) retry_policy mutable_paths current (ground arith)
      (rw (c, d) (ground (arith, eq_ℤ-eq live.maximum_backoff (pos 0))))
      (sym (diff_subscription-eq-drifted current desired) ∙ same)

-- The part of the comparison of push configurations that reads the endpoint and the attributes
abbrev pub same_target : PushConfig → PushConfig → Bool
same_target live desired =
    (is_empty desired.endpoint || live.endpoint == desired.endpoint)
    && labels_subset desired.attributes live.attributes

-- A push configuration that asks for no token and no wrapper
abbrev pub IsPlain : PushConfig → Type 0
IsPlain p = (p.oidc_token ≡ none) × (p.wrapper ≡ wrapper_unset)

push_drift_plain :
    (live d : PushConfig) → IsPlain d → push_drift (some live) (some d) ≡ not (same_target live d)
unfolding push_config_equal oidc_equal wrapper_equal
push_drift_plain live d (token, wrapper) = rw (token, wrapper) (ground arith)

-- A mask leaves the push configuration as it is unless it names it.
push-set_all :
    (sent : Subscription) (mask : List FieldPath) (r : Subscription)
    → (set_all (set_subscription sent) mask r).push
      ≡ (if named push_config mask then sent.push else r.push)
push-set_all sent [] r = refl
push-set_all sent (ack_deadline_seconds ∷ mask) r =
    ground (arith, push-set_all sent mask (set_subscription sent ack_deadline_seconds r))
push-set_all sent (message_retention_duration ∷ mask) r =
    ground (arith, push-set_all sent mask (set_subscription sent message_retention_duration r))
push-set_all sent (retain_acked_messages ∷ mask) r =
    ground (arith, push-set_all sent mask (set_subscription sent retain_acked_messages r))
push-set_all sent (enable_exactly_once_delivery ∷ mask) r =
    ground (arith, push-set_all sent mask (set_subscription sent enable_exactly_once_delivery r))
push-set_all sent (expiration_policy ∷ mask) r =
    ground (arith, push-set_all sent mask (set_subscription sent expiration_policy r))
push-set_all sent (labels ∷ mask) r =
    ground (arith, push-set_all sent mask (set_subscription sent labels r))
push-set_all sent (push_config ∷ mask) r =
    ground (arith, push-set_all sent mask (set_subscription sent push_config r))
push-set_all sent (dead_letter_policy ∷ mask) r =
    ground (arith, push-set_all sent mask (set_subscription sent dead_letter_policy r))
push-set_all sent (retry_policy ∷ mask) r =
    ground (arith, push-set_all sent mask (set_subscription sent retry_policy r))

named-diff_subscription :
    (current desired : Subscription)
    → named push_config (diff_subscription current desired) ≡ push_drift current.push desired.push
named-diff_subscription current desired =
    ap (named push_config) (diff_subscription-eq-drifted current desired)
    ∙ named-drifted (drifts desired) push_config mutable_paths current
    ∙ ground arith

-- A live subscription pushes, and its configuration asks for a push without a token and a wrapper.
-- Once a service that keeps what it is sent has set the fields that drift, the push configuration is
-- the live one, with its token and wrapper, if its endpoint is the configured one or none is
-- configured, and it has the configured attributes. Otherwise it is the configured one with the
-- attributes of both, so a live token and wrapper are gone.
pub diff_subscription-push :
    (current desired : Subscription) (live d : PushConfig)
    → current.push ≡ some live
    → desired.push ≡ some d
    → d.oidc_token ≡ none
    → d.wrapper ≡ wrapper_unset
    → (set_all
        (set_subscription (merge_subscription current desired))
        (diff_subscription current desired)
        current).push
      ≡ (if same_target live d
          then some live
          else some (record d {
            attributes = merge_labels live.attributes d.attributes;
            oidc_token = none;
            wrapper = wrapper_unset;
          }))
unfolding merge_subscription merge_push
diff_subscription-push current desired live d has wants token wrapper =
    push-set_all (merge_subscription current desired) (diff_subscription current desired) current
    ∙ rw
        (
          named-diff_subscription current desired,
          has,
          wants,
          push_drift_plain live d (token, wrapper),
        )
        (elim (Bool-cases (same_target live d)) [
          | inl same ↦ rw same refl
          | inr differ ↦ rw differ (λ i. some (record d {
            attributes = merge_labels live.attributes d.attributes;
            oidc_token = token i;
            wrapper = wrapper i;
          }))
        ])
