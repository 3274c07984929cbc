-- ===== src/Provisioner/Readback/Drift.antt =====
-- The first comparison of a subscription after its creation: from `CreateSubscription` and
-- `GetSubscription` of internal/client/pubsub.go to `diffSubscription` of
-- internal/provisioner/subscriptions.go.
use gcp_emulator_provisioner.Prelude.{
  ◌≡◌, refl, ◌∙◌, ap, false, Option, none, some, [], arith, Text, ok,
}
use gcp_emulator_provisioner.Client.Resources.{
  PushConfig, Subscription, FieldPath, ack_deadline_seconds, message_retention_duration,
  retain_acked_messages, enable_exactly_once_delivery, expiration_policy, labels, push_config,
  dead_letter_policy, retry_policy,
}
use gcp_emulator_provisioner.Client.Paths.{subscription_path, short_name}
use gcp_emulator_provisioner.Client.Paths.Laws.{short_name-topic_path}
use gcp_emulator_provisioner.Client.Messages.{PushConfigMessage, Durations, SubscriptionMessage}
use gcp_emulator_provisioner.Client.Convert.{
  to_proto_push, from_proto_push_config, to_proto_subscription, from_proto_subscription,
}
use gcp_emulator_provisioner.Client.Convert.Laws.{IsSendable, HasWrapper, push_back}
use gcp_emulator_provisioner.Client.PubSub.{
  PubSubClient, create_subscription, get_subscription, create_answer, read_answer,
}
use gcp_emulator_provisioner.Provisioner.Update.Masks.{drifted_of_none}
use gcp_emulator_provisioner.Provisioner.Labels.Laws.{labels_subset_refl}
use gcp_emulator_provisioner.Provisioner.Subscriptions.Diff.{diff_subscription, immutable_drift}
use gcp_emulator_provisioner.Provisioner.Subscriptions.Drifts.{
  IsFilled, HasMaps, drifts, mutable_paths, diff_subscription-eq-drifted,
}
use gcp_emulator_provisioner.Provisioner.Readback.Keeps.{
  Completes, FilledIn, StatesAttempts, StatesBackoffs, flag_keeps, push_keeps, dead_letter_keeps,
  ack_deadline_keeps, duration_keeps, expiration_keeps, retry_keeps,
}

module _ {D : Type 0} (lib : Durations D) (project_id : Text) (desired : Subscription)
    (stored : SubscriptionMessage D) (sendable : IsSendable desired) (maps : HasMaps desired)
    (attempts : StatesAttempts desired.dead_letter) (backoffs : StatesBackoffs desired.retry)
    (kept : Completes (to_proto_subscription lib project_id desired) stored) where
  abbrev current : Subscription
  current = from_proto_subscription lib stored

  drifts_created : (p : FieldPath) → drifts desired p current ≡ false
  unfolding from_proto_subscription to_proto_subscription
  drifts_created ack_deadline_seconds =
      ack_deadline_keeps lib desired.ack_deadline stored.ack_deadline_seconds sendable.ack_deadline
        kept.ack_deadline
  drifts_created message_retention_duration =
      duration_keeps lib desired.message_retention stored.message_retention_duration
        sendable.message_retention kept.message_retention
  drifts_created retain_acked_messages =
      rw kept.retain_acked_messages (flag_keeps desired.retain_acked_messages)
  drifts_created enable_exactly_once_delivery =
      rw kept.enable_exactly_once_delivery (flag_keeps desired.enable_exactly_once_delivery)
  drifts_created expiration_policy =
      expiration_keeps lib desired.expiration_set desired.expiration_ttl stored.expiration_policy
        sendable.expiration kept.expiration
  drifts_created labels =
      rw kept.labels (ground (arith, labels_subset_refl desired.labels maps.labels))
  drifts_created push_config =
      push_keeps desired.push stored.push_config sendable.push maps.attributes kept.push
  drifts_created dead_letter_policy =
      dead_letter_keeps project_id desired.dead_letter stored.dead_letter_policy
        sendable.dead_letter attempts kept.dead_letter
  drifts_created retry_policy =
      retry_keeps lib desired.retry stored.retry_policy sendable.retry backoffs kept.retry

  immutable_drift_created : immutable_drift current desired ≡ []
  unfolding from_proto_subscription to_proto_subscription immutable_drift
  immutable_drift_created =
      let topic =
        ap short_name kept.topic
        ∙ (short_name-topic_path project_id desired.topic sendable.topic).0 in
      rw
        (
          kept.filter,
          topic,
          kept.enable_message_ordering,
          flag_keeps desired.enable_message_ordering,
        )
        (ground arith)

  pub created_settles :
      (diff_subscription current desired ≡ []) × (immutable_drift current desired ≡ [])
  created_settles = (
    diff_subscription-eq-drifted current desired
        ∙ drifted_of_none (drifts desired) mutable_paths current drifts_created,
    immutable_drift_created,
  )

push_filled :
    (push : Option PushConfig) (stored : Option PushConfigMessage) (p : PushConfig)
    → HasWrapper push
    → FilledIn (to_proto_push push) stored
    → push ≡ some p
    → from_proto_push_config stored ≡ some p
unfolding to_proto_push
push_filled none stored p h kept e = cc
push_filled (some q) stored p h kept e = ap from_proto_push_config kept ∙ push_back (some q) h ∙ e

-- What a service that completes each message makes of a subscription keeps what it states.
pub created-IsFilled :
    {D : Type 0} (lib : Durations D) (project_id : Text)
    (complete : SubscriptionMessage D → SubscriptionMessage D) (desired : Subscription)
    → ((m : SubscriptionMessage D) → Completes m (complete m))
    → IsSendable desired
    → HasMaps desired
    → StatesAttempts desired.dead_letter
    → StatesBackoffs desired.retry
    → IsFilled
        (λ d. from_proto_subscription lib (complete (to_proto_subscription lib project_id d)))
        desired
unfolding from_proto_subscription to_proto_subscription
created-IsFilled lib project_id complete desired completes sendable maps attempts backoffs =
    let kept = completes (to_proto_subscription lib project_id desired) in
    record {
      labels = kept.labels;
      push = λ p e. push_filled desired.push _ p sendable.push kept.push e;
      others =
          drifts_created lib project_id desired
            (complete (to_proto_subscription lib project_id desired)) sendable maps attempts
            backoffs kept;
    }

module _ {W D : Type 0} (c : PubSubClient W D) (lib : Durations D) where
  -- A subscription that a message can hold, whose maps have distinct keys and whose dead letter and
  -- retry blocks state each of their fields, is created without an error where the service creates
  -- it. Where the service stored what was sent, perhaps with other fields filled in that were left
  -- out, the next read finds a subscription that drifts from the configured one in no field, mutable
  -- or immutable.
  pub diff_subscription-created :
      (desired : Subscription) (stored : SubscriptionMessage D) (w w' : W)
      → IsSendable desired
      → HasMaps desired
      → StatesAttempts desired.dead_letter
      → StatesBackoffs desired.retry
      → c.subs.create_subscription (to_proto_subscription lib c.project_id desired) w ≡ (ok tt, w')
      → (c.subs.get_subscription (subscription_path c.project_id desired.name) w').0 ≡ ok stored
      → Completes (to_proto_subscription lib c.project_id desired) stored
      → (create_subscription c lib desired w ≡ (ok tt, w'))
        × ((current : Subscription) × ((get_subscription c lib desired.name w').0 ≡ ok current)
            × (diff_subscription current desired ≡ [])
            × (immutable_drift current desired ≡ []))
  unfolding create_subscription get_subscription create_answer read_answer
  diff_subscription-created desired stored w w' sendable maps attempts backoffs created found kept =
      (
        rw created refl,
        let (drift, fixed) =
              created_settles lib c.project_id desired stored sendable maps attempts backoffs
                kept in
            (from_proto_subscription lib stored, rw found refl, drift, fixed),
      )
