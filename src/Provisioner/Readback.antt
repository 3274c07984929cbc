-- ===== src/Provisioner/Readback.antt =====
-- Subscriptions of a validated configuration on their way through the messages of
-- internal/client/pubsub.go.
pub mod Keeps
pub mod Drift
use gcp_emulator_provisioner.Prelude.{
  ◌≡◌, refl, sym, ◌∙◌, ap, Bool-cases, inl, inr, true, false, Option, none, some, List, [], ◌∷◌,
  arith, Text, ok, All, All-map, ◌==◌, Result,
}
use gcp_emulator_provisioner.Config.Schema
use gcp_emulator_provisioner.Config.Names.{matches_resource_name}
use gcp_emulator_provisioner.Config.Validate.Subscriptions.{member}
use gcp_emulator_provisioner.Config.Validate.Resources.{declared_target, validate_topics}
use gcp_emulator_provisioner.Config.Validate.Sound.{IsChecked, IsCheckedTopic, topic_names}
use gcp_emulator_provisioner.Config.Validate.Accepted.{TargetsIn, validate_topics-IsAccepted}
use gcp_emulator_provisioner.Client.Resources.{Subscription}
use gcp_emulator_provisioner.Client.Messages.{Durations}
use gcp_emulator_provisioner.Client.Convert.{to_proto_subscription, from_proto_subscription}
use gcp_emulator_provisioner.Client.Convert.Laws.{
  IsSendable, HasTarget, read_back, from_proto_subscription-to_proto_subscription,
}
use gcp_emulator_provisioner.Provisioner.Subscriptions.Build.{build_subscription, build_dead_letter}
use gcp_emulator_provisioner.Provisioner.Subscriptions.Build.Laws.{
  name-build_subscription, topics-build_subscription,
}
use gcp_emulator_provisioner.Provisioner.Validated.{Builds}
use gcp_emulator_provisioner.Provisioner.Sendable.{
  topic_names-AreNames, build_subscription-IsSendable,
}
use gcp_emulator_provisioner.Runtime.{Runtime}

module _ (rt : Runtime) where
  module _ {D : Type 0} (lib : Durations D) (project_id : Text) where
    -- A subscription of a topic is built without an error, and its message reads back as `read_back`
    -- says.
    abbrev pub SurvivesMessage : Schema.Topic → Schema.Subscription → Type 0
    SurvivesMessage t s =
        Builds
          (λ d. from_proto_subscription lib (to_proto_subscription lib project_id d) ≡ read_back d)
          (build_subscription rt t.name s)

    survives :
        (topics : List Schema.Topic) (t : Schema.Topic)
        → All (IsCheckedTopic rt) topics
        → IsCheckedTopic rt t
        → TargetsIn (topic_names topics) t
        → All (SurvivesMessage t) t.subscriptions
    survives topics t all checked targets = each t.subscriptions checked.subscriptions targets
      where
        each :
            (subs : List Schema.Subscription)
            → All (IsChecked rt) subs
            → All (λ s. declared_target (topic_names topics) s.dead_letter ≡ true) subs
            → All (SurvivesMessage t) subs
        each [] h m = tt
        each (s ∷ subs) (h, hs) (m, ms) =
            let (d, built, sendable) =
              build_subscription-IsSendable rt (topic_names topics) t.name s
                (topic_names-AreNames rt topics all) checked.name.matches h m in
            (
              (d, built, from_proto_subscription-to_proto_subscription lib project_id d sendable),
              each subs hs ms,
            )

    -- Every subscription of topics that validation accepts is built without an error, and reading its
    -- message back gives it as it was built, with a flag that was left out as `false`: no name,
    -- duration, wrapper or dead letter topic is lost or rounded.
    pub from_proto_subscription-build_subscription :
        (topics : List Schema.Topic)
        → validate_topics rt topics ≡ ok tt
        → All (λ t. All (SurvivesMessage t) t.subscriptions) topics
    from_proto_subscription-build_subscription topics h =
        let accepted = validate_topics-IsAccepted rt topics h in
        each topics accepted.checked accepted.targets
      where
        each :
            (ts : List Schema.Topic)
            → All (IsCheckedTopic rt) ts
            → All (TargetsIn (topic_names topics)) ts
            → All (λ t. All (SurvivesMessage t) t.subscriptions) ts
        each [] c m = tt
        each (t ∷ ts) (c, cs) (m, ms) =
            (survives topics t (validate_topics-IsAccepted rt topics h).checked c m, each ts cs ms)
