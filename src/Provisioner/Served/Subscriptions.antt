-- ===== src/Provisioner/Served/Subscriptions.antt =====
-- Subscriptions through the client of internal/client/pubsub.go.
use gcp_emulator_provisioner.Prelude.{◌≡◌, refl, sym, ap, none, some, List, [], ◌∷◌, Text, ok}
use gcp_emulator_provisioner.Client.Resources.{Subscription, FieldPath}
use gcp_emulator_provisioner.Client.Errors.{getting_subscription}
use gcp_emulator_provisioner.Client.Messages.{Durations, TopicMessage, SubscriptionMessage}
use gcp_emulator_provisioner.Client.Convert.{to_proto_subscription, from_proto_subscription}
use gcp_emulator_provisioner.Client.Convert.Laws.{
  IsSendable, from_proto_subscription-to_proto_subscription,
}
use gcp_emulator_provisioner.Client.PubSub.{
  PubSubClient, create_answer, get_subscription, create_subscription, update_subscription, admin,
}
use gcp_emulator_provisioner.Provisioner.Service.{
  Table, Support, answer_get, answer_create, answer_update,
}
use gcp_emulator_provisioner.Provisioner.Subscriptions.Convergence.{ServesSubscriptions}
use gcp_emulator_provisioner.Provisioner.Sections.Steps.{HasTargets}
use gcp_emulator_provisioner.Provisioner.Served.{
  KeepsSubscriptions, set_subscription_field, wrapped, subscription_context, subscription_form,
  filled, view-set_subscription_field, read_found, update_found,
}

module _ {W D : Type 0} (c : PubSubClient W D) (lib : Durations D)
    (topics : Table W (TopicMessage D)) (subs : Table W (SubscriptionMessage D)) (u : Support)
    (complete : SubscriptionMessage D → SubscriptionMessage D)
    (keeps : KeepsSubscriptions c.subs lib c.project_id topics subs u complete) where
  subscription_updates :
      (d : Subscription) (mask : List FieldPath) (live : SubscriptionMessage D) (w : W)
      → subs.at w d.name ≡ some live
      → update_subscription c lib d mask w
        ≡ answer_update subs
            ((subscription_form lib c.project_id complete).set d)
            (wrapped subscription_context u)
            d.name
            mask
            w
  unfolding update_subscription
  subscription_updates d [] live w h =
      rw h (ap (λ v. (ok tt, v)) (sym (subs.put-at d.name live w h)))
  subscription_updates d (p ∷ mask) live w h =
      let sent = to_proto_subscription lib c.project_id d in
      let answer =
        keeps.update d.name sent (p ∷ mask) live w (unfold to_proto_subscription in refl) h in
      rw (answer, h)
        (update_found subs subscription_context (set_subscription_field (complete sent)) u d.name
          (p ∷ mask) w live)

  subscription_creates :
      (d : Subscription) (w : W)
      → IsSendable d
      → subs.at w d.name ≡ none
      → HasTargets topics d w
      → create_subscription c lib d w
        ≡ answer_create subs d.name (complete (to_proto_subscription lib c.project_id d)) w
  unfolding create_subscription create_answer
  subscription_creates d w fit h room =
      let back = from_proto_subscription-to_proto_subscription lib c.project_id d fit in
      let there : HasTargets topics
          (from_proto_subscription lib (to_proto_subscription lib c.project_id d)) w =
        rw back room in
      rw
        (keeps.create d.name (to_proto_subscription lib c.project_id d) w
          (unfold to_proto_subscription in refl) h there)
        refl

  subscription_reads :
      (n : Text) (w : W)
      → get_subscription c lib n w
        ≡ answer_get (subscription_form lib c.project_id complete) subs n w
  unfolding get_subscription
  subscription_reads n w =
      read_found subs (getting_subscription n) (subscription_form lib c.project_id complete)
        (subs.at w n) w _ (keeps.get n w)

  -- The client's calls for subscriptions are those of the service that the reconciliation is proved
  -- against.
  pub admin-ServesSubscriptions :
      ServesSubscriptions
        (admin c lib)
        (subscription_form lib c.project_id complete)
        subs
        (wrapped subscription_context u)
        (filled lib c.project_id complete)
        IsSendable
        (HasTargets topics)
  unfolding admin
  admin-ServesSubscriptions = record {
    view-make = λ d fit. refl;
    view-set = λ d fit p m.
        view-set_subscription_field lib (complete (to_proto_subscription lib c.project_id d)) p m;
    get = subscription_reads;
    create = subscription_creates;
    update = λ d mask live w fit h. subscription_updates d mask live w h;
  }
