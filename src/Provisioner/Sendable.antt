-- ===== src/Provisioner/Sendable.antt =====
-- What internal/provisioner sends of a validated configuration fits into the messages of
-- internal/client/pubsub.go.
use gcp_emulator_provisioner.Prelude.{
  ◌≡◌, ◌∙◌, ap, Bool-cases, inl, inr, true, Option, none, some, List, [], ◌∷◌, arith, Text, All,
  ◌==◌,
}
use gcp_emulator_provisioner.Config.Schema
use gcp_emulator_provisioner.Config.Names.{matches_resource_name}
use gcp_emulator_provisioner.Config.Validate.Subscriptions.{member}
use gcp_emulator_provisioner.Config.Validate.Resources.{declared_target}
use gcp_emulator_provisioner.Config.Validate.Sound.{IsChecked, IsCheckedTopic, topic_names}
use gcp_emulator_provisioner.Client.Resources.{Topic, Subscription, PushConfig}
use gcp_emulator_provisioner.Client.Convert.Laws.{
  IsSendable, IsSendableTopic, HasTarget, HasWrapper,
}
use gcp_emulator_provisioner.Provisioner.Topics.{merge_topic}
use gcp_emulator_provisioner.Provisioner.Subscriptions.Build.{build_subscription, build_dead_letter}
use gcp_emulator_provisioner.Provisioner.Subscriptions.Build.Laws.{
  name-build_subscription, topics-build_subscription,
}
use gcp_emulator_provisioner.Provisioner.Subscriptions.Ensure.{merge_push, merge_subscription}
use gcp_emulator_provisioner.Provisioner.Validated.{Builds, build_subscription-HasFields}
use gcp_emulator_provisioner.Runtime.{Runtime}

-- Every name of the list passed validation.
abbrev pub AreNames : List Text → Type 0
AreNames names = (n : Text) → member n names ≡ true → matches_resource_name n ≡ true

pub topic_names-AreNames :
    (rt : Runtime) (topics : List Schema.Topic)
    → All (IsCheckedTopic rt) topics
    → AreNames (topic_names topics)
topic_names-AreNames rt [] h n m = cc
topic_names-AreNames rt (t ∷ topics) (c, h) n m = elim (Bool-cases (n == t.name)) [
  | inl same ↦ let e : n ≡ t.name = ground arith in ap matches_resource_name e ∙ c.name.matches
  | inr other ↦ topic_names-AreNames rt topics h n (rw other at m)
]

declared-HasTarget :
    (names : List Text) (d : Option Schema.DeadLetter)
    → AreNames names
    → declared_target names d ≡ true
    → HasTarget (build_dead_letter d)
unfolding build_dead_letter
declared-HasTarget names none valid m = tt
declared-HasTarget names (some dl) valid m = valid dl.topic m

-- A subscription of a validated configuration fits into a message.
pub build_subscription-IsSendable :
    (rt : Runtime) (names : List Text) (topic_name : Text) (s : Schema.Subscription)
    → AreNames names
    → matches_resource_name topic_name ≡ true
    → IsChecked rt s
    → declared_target names s.dead_letter ≡ true
    → Builds IsSendable (build_subscription rt topic_name s)
build_subscription-IsSendable rt names topic_name s valid on_valid h target =
    let (d, built, fields) = build_subscription-HasFields rt topic_name s h in
    let (on_topic, dead) = topics-build_subscription rt topic_name s built in
    (
      d,
      built,
      record {
        name =
            ap matches_resource_name (name-build_subscription rt topic_name s built)
            ∙ h.name.matches;
        topic = ap matches_resource_name on_topic ∙ on_valid;
        ack_deadline = fields.ack_deadline;
        message_retention = fields.message_retention;
        expiration = fields.expiration;
        push = fields.push;
        dead_letter = rw dead (declared-HasTarget names s.dead_letter valid target);
        retry = fields.retry;
      },
    )

-- So does what an update sends of it.
merge_push-HasWrapper :
    (current desired : Option PushConfig)
    → HasWrapper desired
    → HasWrapper (merge_push current desired)
unfolding merge_push
merge_push-HasWrapper none desired h = h
merge_push-HasWrapper (some current) none h = tt
merge_push-HasWrapper (some current) (some desired) h = h

pub merge_subscription-IsSendable :
    (live desired : Subscription)
    → IsSendable desired
    → IsSendable (merge_subscription live desired)
unfolding merge_subscription
merge_subscription-IsSendable live desired h = record {
  name = h.name;
  topic = h.topic;
  ack_deadline = h.ack_deadline;
  message_retention = h.message_retention;
  expiration = h.expiration;
  push = merge_push-HasWrapper live.push desired.push h.push;
  dead_letter = h.dead_letter;
  retry = h.retry;
}

pub merge_topic-IsSendableTopic :
    (live desired : Topic) → IsSendableTopic desired → IsSendableTopic (merge_topic live desired)
unfolding merge_topic
merge_topic-IsSendableTopic live desired h = record {
  name = h.name;
  message_retention = h.message_retention;
}
