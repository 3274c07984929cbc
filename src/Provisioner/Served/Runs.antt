-- ===== src/Provisioner/Served/Runs.antt =====
-- Runs of internal/provisioner through the client of internal/client/pubsub.go.
use gcp_emulator_provisioner.Prelude.{◌≡◌, false, some, Text, ok, All}
use gcp_emulator_provisioner.Config.Schema
use gcp_emulator_provisioner.Config.Validate.Resources.{validate_topics}
use gcp_emulator_provisioner.Client.Resources.{Subscription}
use gcp_emulator_provisioner.Client.Messages.{Durations, TopicMessage, SubscriptionMessage}
use gcp_emulator_provisioner.Client.Convert.Laws.{IsSendable}
use gcp_emulator_provisioner.Client.PubSub.{PubSubClient, admin}
use gcp_emulator_provisioner.Provisioner.Effects.{Run}
use gcp_emulator_provisioner.Provisioner.Admin.{Options}
use gcp_emulator_provisioner.Provisioner.Service.{Table, Support, viewed, IsRefusing}
use gcp_emulator_provisioner.Provisioner.Sendable.{merge_subscription-IsSendable}
use gcp_emulator_provisioner.Provisioner.Subscriptions.Build.{build_subscription}
use gcp_emulator_provisioner.Provisioner.Subscriptions.Ensure.{
  merge_subscription, ensure_subscription,
}
use gcp_emulator_provisioner.Provisioner.Subscriptions.Drifts.{HasMaps}
use gcp_emulator_provisioner.Provisioner.Subscriptions.Kept.{ensured}
use gcp_emulator_provisioner.Provisioner.Subscriptions.Convergence.{
  ServesSubscriptions, ensure_subscription_twice,
}
use gcp_emulator_provisioner.Provisioner.Sections.{provision_pubsub}
use gcp_emulator_provisioner.Provisioner.Sections.Steps.{Has, HasTargets}
use gcp_emulator_provisioner.Provisioner.Sections.Complete.{provision_pubsub-Succeeds}
use gcp_emulator_provisioner.Provisioner.Readback.Keeps.{Completes, StatesAttempts, StatesBackoffs}
use gcp_emulator_provisioner.Provisioner.Readback.Drift.{created-IsFilled}
use gcp_emulator_provisioner.Provisioner.Served.Topics.{admin-ServesTopics}
use gcp_emulator_provisioner.Provisioner.Served.Subscriptions.{admin-ServesSubscriptions}
use gcp_emulator_provisioner.Provisioner.Served.{
  topic_form, subscription_form, KeepsTopics, KeepsSubscriptions, wrapped, topic_context,
  subscription_context, wrapped-IsRefusing, filled,
}
use gcp_emulator_provisioner.Runtime.{Runtime}

module _ (rt : Runtime) {W D : Type 0} (c : PubSubClient W D) (lib : Durations D) (opts : Options)
    (topics : Table W (TopicMessage D)) (subs : Table W (SubscriptionMessage D)) (u u' : Support)
    (refusing : IsRefusing rt u) (refusing' : IsRefusing rt u')
    (complete : SubscriptionMessage D → SubscriptionMessage D)
    (keeps : KeepsTopics c.topics c.project_id topics u)
    (keeps_subs : KeepsSubscriptions c.subs lib c.project_id topics subs u' complete)
    (applied : opts.dry_run ≡ false) where
  -- Through the client, at a service that keeps topics and subscriptions apart in tables under their
  -- names, checks a whole mask first and creates a subscription only where its topic and its dead
  -- letter topic are, a run that applies changes provisions every configuration whose topics
  -- validation accepted: it returns no error, and each topic and each subscription of the
  -- configuration is there at the end.
  pub provision_pubsub-admin :
      (cfg : Schema.Config) (s : Run W)
      → ((n : Text) (d : SubscriptionMessage D) (w : W) (j : Text)
          → topics.at (subs.put n d w) j ≡ topics.at w j)
      → validate_topics rt cfg.pubsub.topics ≡ ok tt
      → let after = provision_pubsub rt (admin c lib) opts cfg s in
        (after.0 ≡ ok tt)
        × All (λ t. Has topics t.name after.1.world) cfg.pubsub.topics
        × All (λ t. All (λ b. Has subs b.name after.1.world) t.subscriptions) cfg.pubsub.topics
  provision_pubsub-admin cfg s apart valid =
      provision_pubsub-Succeeds rt (admin c lib) opts (topic_form lib c.project_id)
        (subscription_form lib c.project_id complete) topics subs (wrapped topic_context u)
        (wrapped subscription_context u') (filled lib c.project_id complete)
        (wrapped-IsRefusing rt topic_context u refusing)
        (wrapped-IsRefusing rt subscription_context u' refusing')
        (admin-ServesTopics c lib topics u keeps)
        (admin-ServesSubscriptions c lib topics subs u' complete keeps_subs) apart applied cfg s
        valid

  -- A subscription that a message can hold, whose dead letter and retry blocks state each of their
  -- fields
  abbrev pub IsStated : Subscription → Type 0
  IsStated d = IsSendable d × StatesAttempts d.dead_letter × StatesBackoffs d.retry

  serves_fully :
      ServesSubscriptions
        (admin c lib)
        (subscription_form lib c.project_id complete)
        subs
        (wrapped subscription_context u')
        (filled lib c.project_id complete)
        IsStated
        (HasTargets topics)
  serves_fully =
      let serves = admin-ServesSubscriptions c lib topics subs u' complete keeps_subs in
      record {
        view-make = λ d (fit, attempts, backoffs). serves.view-make d fit;
        view-set = λ d (fit, attempts, backoffs). serves.view-set d fit;
        get = serves.get;
        create = λ d w (fit, attempts, backoffs) absent room. serves.create d w fit absent room;
        update =
            λ d mask live w (fit, attempts, backoffs) held. serves.update d mask live w fit held;
      }

  merge_subscription-IsStated :
      (live desired : Subscription) → IsStated desired → IsStated (merge_subscription live desired)
  unfolding merge_subscription
  merge_subscription-IsStated live desired (fit, attempts, backoffs) =
      (merge_subscription-IsSendable live desired fit, attempts, backoffs)

  -- Through the client, at a service that completes what was left out of a message, where maps have
  -- distinct keys, the topic and the dead letter topic are there, and the dead letter and retry blocks
  -- state each of their fields, a run that applies changes returns no error. The subscription then is,
  -- as the program reads it, the completed configured one if it was missing, as it was under the
  -- strategy "create", and with each drifting field that the service supports set otherwise. A second
  -- run returns no error and leaves the world as the first one left it.
  pub ensure_subscription-admin :
      (topic_name : Text) (sub : Schema.Subscription) (desired : Subscription) (strategy : Text)
      (s : Run W)
      → ((m : SubscriptionMessage D) → Completes m (complete m))
      → build_subscription rt topic_name sub ≡ ok desired
      → IsStated desired
      → HasMaps desired
      → ((live : Subscription)
          → viewed (subscription_form lib c.project_id complete) (subs.at s.world desired.name)
            ≡ some live
          → HasMaps live)
      → HasTargets topics desired s.world
      → let first = ensure_subscription rt (admin c lib) opts topic_name sub strategy s in
        let second = ensure_subscription rt (admin c lib) opts topic_name sub strategy first.1 in
        (first.0 ≡ ok tt)
        × (viewed (subscription_form lib c.project_id complete) (subs.at first.1.world desired.name)
            ≡ some (
                ensured
                  (wrapped subscription_context u')
                  (filled lib c.project_id complete)
                  desired
                  strategy
                  (viewed
                    (subscription_form lib c.project_id complete)
                    (subs.at s.world desired.name))))
        × (second.0 ≡ ok tt)
        × (second.1.world ≡ first.1.world)
  ensure_subscription-admin topic_name sub desired strategy s completes built stated maps live_maps
        room =
      ensure_subscription_twice rt (admin c lib) opts (subscription_form lib c.project_id complete)
        subs (wrapped subscription_context u')
        (wrapped-IsRefusing rt subscription_context u' refusing') (filled lib c.project_id complete)
        IsStated (HasTargets topics) serves_fully applied topic_name sub desired strategy built
        stated (λ live. merge_subscription-IsStated live desired stated) s
        (λ d (fit, attempts, backoffs) h.
          created-IsFilled lib c.project_id complete d completes fit h attempts backoffs)
        maps live_maps (λ absent. room)
