-- ===== src/Config/Validate/Accepted.antt =====
-- What every topic section that validation accepts satisfies.
use gcp_emulator_provisioner.Prelude.{
  ℕ, suc, ◌≡◌, refl, sym, ◌∙◌, ap, true, List, [], ◌∷◌, ◌++◌, arith, Text, ok, >>-eq-ok, >>=-eq-ok,
  All, All-map, Option, none, some,
}
use gcp_emulator_provisioner.Config.Schema.{Topic, Subscription, DeadLetter}
use gcp_emulator_provisioner.Config.Problem.{Location, index}
use gcp_emulator_provisioner.Config.Validate.Fields.{
  ◌▸◌, validate_strategy, validate_labels, validate_duration_range, min_message_retention,
  max_message_retention,
}
use gcp_emulator_provisioner.Config.Validate.Subscriptions.{
  validate_name, validate_subscriptions_from, validate_subscriptions,
}
use gcp_emulator_provisioner.Config.Validate.Resources.{
  topics_at, declared_target, validate_targets_of, validate_targets_from,
  validate_dead_letter_targets, validate_topics_from, validate_topics,
}
use gcp_emulator_provisioner.Config.Validate.Ranges.{validate_duration_range_iff}
use gcp_emulator_provisioner.Config.Validate.Settings.{validate_labels-NoNullBytes}
use gcp_emulator_provisioner.Config.Validate.Seen.{
  seen_after, Fresh, Distinct, Fresh-Distinct, Fresh-append, member-seen_after,
}
use gcp_emulator_provisioner.Config.Validate.Sound.{
  topic_names, subscription_names, all_subscription_names, strategy_sound, validate_name-IsName,
  IsCheckedTopic, subscriptions_sound,
}
use gcp_emulator_provisioner.Runtime.{Runtime}

-- Every dead letter target of a topic's subscriptions is among the names.
abbrev pub TargetsIn : List Text → Topic → Type 0
TargetsIn names t = All (λ s. declared_target names s.dead_letter ≡ true) t.subscriptions

target_in :
    (names : List Text) (d : Option DeadLetter)
    → declared_target (seen_after [] names) d ≡ true
    → declared_target names d ≡ true
target_in names none h = refl
target_in names (some d) h = sym (member-seen_after d.topic [] names) ∙ h

targets_of_sound :
    (at : Location) (j : ℕ) (subs : List Subscription) (declared : List Text)
    → validate_targets_of at j subs declared ≡ ok tt
    → All (λ s. declared_target declared s.dead_letter ≡ true) subs
unfolding validate_targets_of
targets_of_sound at j [] declared h = tt
targets_of_sound at j (s ∷ subs) declared h =
    (ground arith, targets_of_sound at (suc j) subs declared (ground arith))

targets_sound :
    (i : ℕ) (topics : List Topic) (declared : List Text)
    → validate_targets_from i topics declared ≡ ok tt
    → All (TargetsIn declared) topics
unfolding validate_targets_from
targets_sound i [] declared h = tt
targets_sound i (t ∷ topics) declared h =
    let at : Location = topics_at ++ (index i ∷ []) in
    let (here, rest) = >>-eq-ok (validate_targets_of at 0 t.subscriptions declared) _ h in
    (
      targets_of_sound at 0 t.subscriptions declared here,
      targets_sound (suc i) topics declared rest,
    )

module _ (rt : Runtime) where
  topics_sound :
      (i : ℕ) (topics : List Topic) (names subs names' subs' : List Text)
      → validate_topics_from rt i topics names subs ≡ ok (names', subs')
      → (names' ≡ seen_after names (topic_names topics))
        × Fresh names (topic_names topics)
        × Fresh subs (all_subscription_names topics)
        × All (IsCheckedTopic rt) topics
  unfolding validate_topics_from validate_subscriptions
  topics_sound i [] names subs names' subs' h = (ground arith, tt, tt, tt)
  topics_sound i (t ∷ topics) names subs names' subs' h =
      let prefix : Location = topics_at ++ (index i ∷ []) in
      let (strategy, h1) = >>-eq-ok (validate_strategy (prefix ▸ "strategy") t.strategy) _ h in
      let (name, h2) = >>-eq-ok (validate_name (prefix ▸ "name") t.name names) _ h1 in
      let (labels, h3) = >>-eq-ok (validate_labels (prefix ▸ "labels") t.labels) _ h2 in
      let (retention, h4) =
        >>-eq-ok
          (validate_duration_range rt (prefix ▸ "message_retention") t.message_retention
            min_message_retention max_message_retention)
          _ h3 in
      let (seen, here, h5) =
        >>=-eq-ok (validate_subscriptions_from rt 0 prefix t.subscriptions subs)
          (λ sub_names. validate_topics_from rt (suc i) topics (t.name ∷ names) sub_names) h4 in
      let (after, fresh, checked) =
        subscriptions_sound rt 0 prefix t.subscriptions subs seen here in
      let (names_after, new, subs_new, rest) =
        topics_sound (suc i) topics (t.name ∷ names) seen names' subs' h5 in
      let (named, first) = validate_name-IsName (prefix ▸ "name") t.name names name in
      (
        names_after,
        (first, new),
        Fresh-append subs (subscription_names t.subscriptions) (all_subscription_names topics) fresh
            (rw (sym after) subs_new),
        (
          record {
            strategy = strategy_sound (prefix ▸ "strategy") t.strategy strategy;
            name = named;
            labels = validate_labels-NoNullBytes (prefix ▸ "labels") t.labels labels;
            in_range =
                (validate_duration_range_iff rt (prefix ▸ "message_retention") t.message_retention
                    min_message_retention max_message_retention).0
                  retention;
            at = prefix ▸ "message_retention";
            retention = retention;
            subscriptions = checked;
          },
          rest,
        ),
      )

  -- What validation establishes of the topics of a configuration
  pub record IsAccepted (topics : List Topic) : Type 0 where
    pub topics_distinct : Distinct (topic_names topics)
    pub subscriptions_distinct : Distinct (all_subscription_names topics)
    pub checked : All (IsCheckedTopic rt) topics
    pub targets : All (TargetsIn (topic_names topics)) topics

  -- In topics that validation accepts, no topic name and no subscription name of the project occurs
  -- twice. Every topic and subscription has a listed strategy and a name that matches the resource
  -- pattern, has no null byte and does not begin with "goog", labels without null bytes and a
  -- retention that is left out or in its range. Every subscription has the settings of `IsSettings`.
  -- Every dead letter target is the name of a topic in the list, before or after it.
  pub validate_topics-IsAccepted :
      (topics : List Topic) → validate_topics rt topics ≡ ok tt → IsAccepted topics
  unfolding validate_topics validate_dead_letter_targets
  validate_topics-IsAccepted topics h =
      let ((names, subs), found, rest) =
        >>=-eq-ok (validate_topics_from rt 0 topics [] [])
          (λ (names, subs). validate_targets_from 0 topics names) h in
      let (after, new, subs_new, checked) = topics_sound 0 topics [] [] names subs found in
      record {
        topics_distinct = Fresh-Distinct [] (topic_names topics) new;
        subscriptions_distinct = Fresh-Distinct [] (all_subscription_names topics) subs_new;
        checked = checked;
        targets =
            All-map topics
              (λ t. All-map t.subscriptions (λ s e.
                target_in (topic_names topics) s.dead_letter
                  (ap (λ d. declared_target d s.dead_letter) (sym after) ∙ e)))
              (targets_sound 0 topics names rest);
      }
