-- ===== src/Provisioner/Sections/Complete.antt =====
-- The Pub/Sub section of internal/provisioner/provisioner.go from start to end, at a service that
-- creates a subscription only where its topic and its dead letter topic exist.
use gcp_emulator_provisioner.Prelude.{
  ◌≡◌, refl, sym, ◌∙◌, ap, true, false, List, [], ◌∷◌, Text, ok, All, All-map, Result,
}
use gcp_emulator_provisioner.Config.Schema
use gcp_emulator_provisioner.Config.Strategy.{effective_strategy}
use gcp_emulator_provisioner.Config.Validate.Resources.{declared_target, validate_topics}
use gcp_emulator_provisioner.Config.Validate.Sound.{IsChecked, IsCheckedTopic, topic_names}
use gcp_emulator_provisioner.Config.Validate.Accepted.{TargetsIn, validate_topics-IsAccepted}
use gcp_emulator_provisioner.Client.Resources.{Topic, Subscription}
use gcp_emulator_provisioner.Client.Errors.{
  Error, wrap, provisioning_topic, provisioning_subscription,
}
use gcp_emulator_provisioner.Provisioner.Effects.{Run}
use gcp_emulator_provisioner.Provisioner.Admin.{Options, PubSubAdmin}
use gcp_emulator_provisioner.Provisioner.Service.{Table, Form, Support, IsRefusing, at-put_self}
use gcp_emulator_provisioner.Provisioner.Topics.{ensure_topic}
use gcp_emulator_provisioner.Provisioner.Topics.Convergence.{
  ServesTopics, ensure_topic-EndsIn, name_of_built,
}
use gcp_emulator_provisioner.Provisioner.Subscriptions.Build.Laws.{
  name-build_subscription, topics-build_subscription,
}
use gcp_emulator_provisioner.Provisioner.Subscriptions.Ensure.{ensure_subscription}
use gcp_emulator_provisioner.Provisioner.Topics.Kept.{kept}
use gcp_emulator_provisioner.Provisioner.Subscriptions.Kept
use gcp_emulator_provisioner.Provisioner.Subscriptions.Convergence.{
  ServesSubscriptions, ensure_subscription-EndsIn,
}
use gcp_emulator_provisioner.Provisioner.Sections.{
  provision_topics, provision_subscriptions_of, provision_subscriptions, provision_pubsub,
}
use gcp_emulator_provisioner.Provisioner.Validated.{build_topic-IsSendableTopic}
use gcp_emulator_provisioner.Provisioner.Sendable.{
  AreNames, topic_names-AreNames, build_subscription-IsSendable, merge_subscription-IsSendable,
  merge_topic-IsSendableTopic,
}
use gcp_emulator_provisioner.Config.Names.{matches_resource_name}
use gcp_emulator_provisioner.Client.Convert.Laws.{IsSendable, IsSendableTopic}
use gcp_emulator_provisioner.Runtime.{Runtime}
use gcp_emulator_provisioner.Provisioner.Sections.Steps.{
  Has, Has-put, then_after, and_then, HasTargets, Declared, Declared-topic_names, targets_of,
}

module _ (rt : Runtime) {W : Type 0} (admin : PubSubAdmin W) (opts : Options) {R S : Type 0}
    (form : Form R Topic) (form_subs : Form S Subscription) (topics : Table W R) (subs : Table W S)
    (u u' : Support) (fill : Subscription → Subscription) (refusing : IsRefusing rt u)
    (refusing' : IsRefusing rt u') (serves : ServesTopics admin form topics u IsSendableTopic)
    (serves_subs : ServesSubscriptions admin form_subs subs u' fill IsSendable (HasTargets topics))
    (apart : (n : Text) (d : S) (w : W) (j : Text) → topics.at (subs.put n d w) j ≡ topics.at w j)
    (applied : opts.dry_run ≡ false) where
  -- A step that returned no error, after which the topics that were there still are
  abbrev Continues : Run W → Result Error (Unit {0}) × Run W → Type 0
  Continues s after =
      (after.0 ≡ ok tt) × ((j : Text) → Has topics j s.world → Has topics j after.1.world)

  topic_step :
      (t : Schema.Topic) (strategy : Text) (s : Run W)
      → IsCheckedTopic rt t
      → let after = ensure_topic rt admin opts t strategy s in
        Continues s after × Has topics t.name after.1.world
  topic_step t strategy s h =
      let (d, built, fit) = build_topic-IsSendableTopic rt t h in
      let (fine, world) =
        ensure_topic-EndsIn rt admin opts form topics u refusing IsSendableTopic serves applied t d
          strategy built fit (λ live. merge_topic-IsSendableTopic live d fit) s in
      let final = kept u d strategy form (topics.at s.world d.name) in
      let name = name_of_built rt t built in
      (
        (fine, rw world (λ j there. Has-put topics d.name final j s.world there)),
        (
          final,
          ap (λ w. topics.at w t.name) world
              ∙ ap (λ n. topics.at (topics.put d.name final s.world) n) name
              ∙ at-put_self topics d.name final s.world,
        ),
      )

  -- Every topic of the list
  abbrev TopicsDone : List Schema.Topic → Run W → Result Error (Unit {0}) × Run W → Type 0
  TopicsDone ts s after = Continues s after × All (λ t. Has topics t.name after.1.world) ts

  topics_done :
      (global : Text) (ts : List Schema.Topic) (s : Run W)
      → All (IsCheckedTopic rt) ts
      → TopicsDone ts s (provision_topics rt admin opts global ts s)
  unfolding provision_topics
  topics_done global [] s h = ((refl, λ j there. there), tt)
  topics_done global (t ∷ ts) s (checked, h) =
      let strategy = effective_strategy (t.strategy ∷ global ∷ []) in
      let ((fine, kept), here) = topic_step t strategy s checked in
      let ((fine', kept'), there) =
        topics_done global ts (ensure_topic rt admin opts t strategy s).1 h in
      then_after (TopicsDone (t ∷ ts) s) (wrap (provisioning_topic t.name))
        (ensure_topic rt admin opts t strategy) (provision_topics rt admin opts global ts) s fine
        ((fine', λ j before. kept' j (kept j before)), (kept' t.name here, there))

  -- A step of the second section: no error, and the topics are as they were
  abbrev Leaves : Run W → Result Error (Unit {0}) × Run W → Type 0
  Leaves s after =
      (after.0 ≡ ok tt)
      × ((j : Text) → topics.at after.1.world j ≡ topics.at s.world j)
      × ((j : Text) → Has subs j s.world → Has subs j after.1.world)

  abbrev Ready : List Text → Text → Run W → Type 0
  Ready names topic_name s = Has topics topic_name s.world × Declared topics names s.world

  subscription_step :
      (names : List Text) (topic_name : Text) (b : Schema.Subscription) (strategy : Text)
      (s : Run W)
      → AreNames names
      → matches_resource_name topic_name ≡ true
      → IsChecked rt b
      → declared_target names b.dead_letter ≡ true
      → Ready names topic_name s
      → let after = ensure_subscription rt admin opts topic_name b strategy s in
        Leaves s after × Has subs b.name after.1.world
  subscription_step names topic_name b strategy s valid named h target ((t, there), all_there) =
      let (d, built, fit) =
        build_subscription-IsSendable rt names topic_name b valid named h target in
      let (on_topic, dead) = topics-build_subscription rt topic_name b built in
      let final = Kept.kept u' fill d strategy form_subs (subs.at s.world d.name) in
      let room : HasTargets topics d s.world = (
        (t, ap (topics.at s.world) on_topic ∙ there),
        (λ p e. targets_of topics names b.dead_letter s.world all_there target p (sym dead ∙ e)),
      ) in
      let (fine, world) =
        ensure_subscription-EndsIn rt admin opts form_subs subs u' refusing' fill IsSendable
          (HasTargets topics) serves_subs applied topic_name b d strategy built fit
          (λ live. merge_subscription-IsSendable live d fit) s (λ gone. room) in
      (
        (
          fine,
          (λ j. ap (λ w. topics.at w j) world ∙ apart d.name final s.world j),
          rw world (λ j held. Has-put subs d.name final j s.world held),
        ),
        (
          final,
          ap (λ w. subs.at w b.name) world
              ∙ ap (λ n. subs.at (subs.put d.name final s.world) n)
                  (sym (name-build_subscription rt topic_name b built))
              ∙ at-put_self subs d.name final s.world,
        ),
      )

  Ready-Leaves :
      (names : List Text) (topic_name : Text) (s : Run W) (after : Result Error (Unit {0}) × Run W)
      → Leaves s after
      → Ready names topic_name s
      → Ready names topic_name after.1
  unfolding Declared
  Ready-Leaves names topic_name s after (fine, same, kept) ((t, there), all_there) =
      ((t, same topic_name ∙ there), λ n m. let (r, h) = all_there n m in (r, same n ∙ h))

  abbrev SubsDone : List Schema.Subscription → Run W → Result Error (Unit {0}) × Run W → Type 0
  SubsDone bs s after = Leaves s after × All (λ b. Has subs b.name after.1.world) bs

  subscriptions_of_done :
      (names : List Text) (global topic_name : Text) (bs : List Schema.Subscription) (s : Run W)
      → AreNames names
      → matches_resource_name topic_name ≡ true
      → All (IsChecked rt) bs
      → All (λ b. declared_target names b.dead_letter ≡ true) bs
      → Ready names topic_name s
      → SubsDone bs s (provision_subscriptions_of rt admin opts global topic_name bs s)
  unfolding provision_subscriptions_of
  subscriptions_of_done names global topic_name [] s valid named h target ready =
      ((refl, (λ j. refl), (λ j held. held)), tt)
  subscriptions_of_done names global topic_name (b ∷ bs) s valid named (checked, h)
        (target, targets) ready =
      let strategy = effective_strategy (b.strategy ∷ global ∷ []) in
      let step = ensure_subscription rt admin opts topic_name b strategy in
      let ((fine, same, kept), here) =
        subscription_step names topic_name b strategy s valid named checked target ready in
      let ((fine', same', kept'), there) =
        subscriptions_of_done names global topic_name bs (step s).1 valid named h targets
          (Ready-Leaves names topic_name s (step s) (fine, same, kept) ready) in
      then_after (SubsDone (b ∷ bs) s) (wrap (provisioning_subscription b.name topic_name)) step
        (provision_subscriptions_of rt admin opts global topic_name bs) s fine
        (
          (fine', (λ j. same' j ∙ same j), (λ j held. kept' j (kept j held))),
          (kept' b.name here, there),
        )

  abbrev AllSubsDone : List Schema.Topic → Run W → Result Error (Unit {0}) × Run W → Type 0
  AllSubsDone ts s after =
      Leaves s after × All (λ t. All (λ b. Has subs b.name after.1.world) t.subscriptions) ts

  provision_subscriptions-AllSubsDone :
      (names : List Text) (global : Text) (ts : List Schema.Topic) (s : Run W)
      → AreNames names
      → All (IsCheckedTopic rt) ts
      → All (TargetsIn names) ts
      → All (λ t. Has topics t.name s.world) ts
      → Declared topics names s.world
      → AllSubsDone ts s (provision_subscriptions rt admin opts global ts s)
  unfolding provision_subscriptions Declared
  provision_subscriptions-AllSubsDone names global [] s valid h targets there all_there =
      ((refl, (λ j. refl), (λ j held. held)), tt)
  provision_subscriptions-AllSubsDone names global (t ∷ ts) s valid (checked, h) (target, targets)
        (here, there) all_there =
      let section = provision_subscriptions_of rt admin opts global t.name t.subscriptions in
      let rest = provision_subscriptions rt admin opts global ts in
      let ((fine, same, kept), done) =
        subscriptions_of_done names global t.name t.subscriptions s valid checked.name.matches
          checked.subscriptions target (here, all_there) in
      let ((fine', same', kept'), done') =
        provision_subscriptions-AllSubsDone names global ts (section s).1 valid h targets
          (All-map ts (λ x (r, e). (r, same x.name ∙ e)) there)
          (λ n m. let (r, e) = all_there n m in (r, same n ∙ e)) in
      and_then (AllSubsDone (t ∷ ts) s) section rest s fine (
        (fine', (λ j. same' j ∙ same j), (λ j held. kept' j (kept j held))),
        (All-map t.subscriptions (λ b. kept' b.name) done, done'),
      )

  -- Where topics and subscriptions are kept apart and the service, for what a message can hold,
  -- creates a subscription in a world that has its topic and its dead letter topic, a run that applies
  -- changes provisions every configuration whose topics validation accepted: it returns no error, and
  -- each topic and each subscription of the configuration is there at the end.
  pub provision_pubsub-Succeeds :
      (cfg : Schema.Config) (s : Run W)
      → validate_topics rt cfg.pubsub.topics ≡ ok tt
      → let after = provision_pubsub rt admin opts cfg s in
        (after.0 ≡ ok tt)
        × All (λ t. Has topics t.name after.1.world) cfg.pubsub.topics
        × All (λ t. All (λ b. Has subs b.name after.1.world) t.subscriptions) cfg.pubsub.topics
  unfolding provision_pubsub
  provision_pubsub-Succeeds cfg s valid =
      let ts = cfg.pubsub.topics in
      let accepted = validate_topics-IsAccepted rt ts valid in
      let first = provision_topics rt admin opts cfg.strategy ts in
      let second = provision_subscriptions rt admin opts cfg.strategy ts in
      let ((fine, kept), there) = topics_done cfg.strategy ts s accepted.checked in
      let ((fine', same, kept'), done) =
        provision_subscriptions-AllSubsDone (topic_names ts) cfg.strategy ts (first s).1
          (topic_names-AreNames rt ts accepted.checked) accepted.checked accepted.targets there
          (Declared-topic_names topics ts (first s).1.world there) in
      and_then
        (λ r.
          (r.0 ≡ ok tt)
          × All (λ t. Has topics t.name r.1.world) ts
          × All (λ t. All (λ b. Has subs b.name r.1.world) t.subscriptions) ts)
        first second s fine (fine', All-map ts (λ t (r, e). (r, same t.name ∙ e)) there, done)
