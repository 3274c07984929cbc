-- ===== src/Provisioner/Topics/Convergence.antt =====
-- Runs of `ensureTopic` of internal/provisioner/topics.go against a service.
use gcp_emulator_provisioner.Prelude.{
  ◌≡◌, refl, sym, ◌∙◌, ap, false, Bool-cases, inl, inr, Option, none, some, List, [], ◌∷◌, ◌++◌,
  arith, Text, ok, ◌==◌, DistinctKeys,
}
use gcp_emulator_provisioner.Config.Schema
use gcp_emulator_provisioner.Config.Strategy.{create}
use gcp_emulator_provisioner.Client.Resources.{Topic, FieldPath}
use gcp_emulator_provisioner.Client.Errors.{is_missing}
use gcp_emulator_provisioner.Provisioner.Effects.{Run, topic, unsupported, updating, EndsIn}
use gcp_emulator_provisioner.Provisioner.Admin.{Options, PubSubAdmin}
use gcp_emulator_provisioner.Provisioner.Update.Masks.{supported, set_all}
use gcp_emulator_provisioner.Provisioner.Service.{
  Table, Support, Form, viewed, found_get, IsRefusing, answer_get, answer_create, answer_update,
  apply_paths-table, at-put_self,
}
use gcp_emulator_provisioner.Provisioner.Topics.{
  diff_topic, merge_topic, build_topic, create_missing_topic, update_topic, reconcile_topic,
  reconcile_topic_paths, built_duration, settle_topic, ensure_topic,
}
use gcp_emulator_provisioner.Provisioner.Topics.Laws.{set_topic}
use gcp_emulator_provisioner.Runtime.{Runtime}
use gcp_emulator_provisioner.Provisioner.Topics.Kept.{ensured, kept, view-kept, kept_again}

pub name_of_built :
    (rt : Runtime) (t : Schema.Topic) {desired : Topic}
    → build_topic rt t ≡ ok desired
    → t.name ≡ desired.name
unfolding build_topic built_duration
name_of_built rt t built = ground arith

-- The topic calls of an endpoint are those of a service with the given table, for the topics that it
-- accepts.
pub record ServesTopics {W R : Type 0} (admin : PubSubAdmin W) (form : Form R Topic)
    (topics : Table W R) (u : Support) (accepts : Topic → Type 0) : Type 0 where
  pub view-make : (t : Topic) → accepts t → form.view (form.make t) ≡ t
  pub view-set :
      (t : Topic)
      → accepts t
      → (p : FieldPath) (r : R) → form.view (form.set t p r) ≡ set_topic t p (form.view r)
  pub get : (n : Text) (w : W) → admin.get_topic n w ≡ answer_get form topics n w
  pub create :
      (t : Topic) (w : W)
      → accepts t
      → topics.at w t.name ≡ none
      → admin.create_topic t w ≡ answer_create topics t.name (form.make t) w
  pub update :
      (t : Topic) (mask : List FieldPath) (live : R) (w : W)
      → accepts t
      → topics.at w t.name ≡ some live
      → admin.update_topic t mask w ≡ answer_update topics (form.set t) u t.name mask w

module _ (rt : Runtime) {W : Type 0} (admin : PubSubAdmin W) (opts : Options) {R : Type 0}
    (form : Form R Topic) (topics : Table W R) (u : Support) (refusing : IsRefusing rt u)
    (accepts : Topic → Type 0) (serves : ServesTopics admin form topics u accepts)
    (applied : opts.dry_run ≡ false) where
  update_topic-EndsIn :
      (live : R) (desired : Topic) (mask : List FieldPath) (s : Run W)
      → accepts (merge_topic (form.view live) desired)
      → topics.at s.world desired.name ≡ some live
      → EndsIn (update_topic rt admin opts (form.view live) desired mask) s (
          topics.put desired.name
            (set_all
              (form.set (merge_topic (form.view live) desired))
              (supported u.supports mask)
              live)
            s.world)
  unfolding update_topic merge_topic
  update_topic-EndsIn live desired mask s fit h =
      let merged = merge_topic (form.view live) desired in
      let after =
        apply_paths-table topics rt u (form.set merged) desired.name refusing
          (λ p. unsupported topic desired.name p) (admin.update_topic merged)
          (λ m r w e. serves.update merged m r w fit e) mask live
          (record s { log = s.log ++ (updating topic desired.name mask ∷ []) }) h in
      (ap (λ r. r.0) after, ap (λ r. r.1.world) after)

  reconcile_topic_paths-EndsIn :
      (live : R) (desired : Topic) (mask : List FieldPath) (s : Run W)
      → accepts (merge_topic (form.view live) desired)
      → topics.at s.world desired.name ≡ some live
      → EndsIn (reconcile_topic_paths rt admin opts (form.view live) desired mask) s (
          topics.put desired.name
            (set_all
              (form.set (merge_topic (form.view live) desired))
              (supported u.supports mask)
              live)
            s.world)
  unfolding reconcile_topic_paths
  reconcile_topic_paths-EndsIn live desired [] s fit h =
      (refl, sym (topics.put-at desired.name live s.world h))
  reconcile_topic_paths-EndsIn live desired (p ∷ mask) s fit h =
      simp applied (update_topic-EndsIn live desired (p ∷ mask) s fit h)

  reconcile_topic-EndsIn :
      (live : R) (desired : Topic) (strategy : Text) (s : Run W)
      → accepts (merge_topic (form.view live) desired)
      → topics.at s.world desired.name ≡ some live
      → EndsIn
          (reconcile_topic rt admin opts (form.view live) desired strategy)
          s
          (topics.put desired.name (kept u desired strategy form (some live)) s.world)
  unfolding reconcile_topic
  reconcile_topic-EndsIn live desired strategy s fit h = elim (Bool-cases (strategy == create)) [
    | inl same ↦ rw same (refl, sym (topics.put-at desired.name live s.world h))
    | inr differ ↦
        rw differ
          (reconcile_topic_paths-EndsIn live desired (diff_topic (form.view live) desired) s fit h)
  ]

  settle_topic-EndsIn :
      (desired : Topic) (strategy : Text) (s : Run W) (found : Option R)
      → accepts desired
      → ((live : Topic) → accepts (merge_topic live desired))
      → topics.at s.world desired.name ≡ found
      → EndsIn
          (settle_topic rt admin opts desired strategy (found_get form s.world found).0)
          (record s { world = (found_get form s.world found).1 })
          (topics.put desired.name (kept u desired strategy form found) s.world)
  unfolding settle_topic create_missing_topic is_missing
  settle_topic-EndsIn desired strategy s none fit fits h =
      simp applied (ground (arith, serves.create desired s.world fit h))
  settle_topic-EndsIn desired strategy s (some live) fit fits h =
      reconcile_topic-EndsIn live desired strategy s (fits (form.view live)) h

  module _ (t : Schema.Topic) (desired : Topic) (strategy : Text)
      (built : build_topic rt t ≡ ok desired) (fit : accepts desired)
      (fits : (live : Topic) → accepts (merge_topic live desired)) where
    pub ensure_topic-EndsIn :
        (s : Run W)
        → EndsIn (ensure_topic rt admin opts t strategy) s (
            topics.put desired.name
              (kept u desired strategy form (topics.at s.world desired.name))
              s.world)
    unfolding ensure_topic
    ensure_topic-EndsIn s =
        rw (built, serves.get t.name s.world, name_of_built rt t built)
          (settle_topic-EndsIn desired strategy s (topics.at s.world desired.name) fit fits refl)

    -- Where the service accepts what is sent and every live topic has distinct label keys, as a map
    -- has, a run that applies changes
    -- returns no error and leaves the topic as `ensured` says: as configured if it was missing, as
    -- it was under the strategy "create", and with each drifting field that the service supports
    -- set otherwise. A second run returns no error and leaves the world as the first one left it.
    pub ensure_topic_twice :
        (s : Run W)
        → DistinctKeys desired.labels
        → ((live : Topic)
            → viewed form (topics.at s.world desired.name) ≡ some live
            → DistinctKeys live.labels)
        → let first = ensure_topic rt admin opts t strategy s in
          let second = ensure_topic rt admin opts t strategy first.1 in
          (first.0 ≡ ok tt)
          × (viewed form (topics.at first.1.world desired.name)
              ≡ some (ensured u desired strategy (viewed form (topics.at s.world desired.name))))
          × (second.0 ≡ ok tt)
          × (second.1.world ≡ first.1.world)
    ensure_topic_twice s hd hl =
        let found = topics.at s.world desired.name in
        let final = kept u desired strategy form found in
        let first = ensure_topic rt admin opts t strategy s in
        let (fine, world) = ensure_topic-EndsIn s in
        let (fine', world') = ensure_topic-EndsIn first.1 in
        let made = serves.view-make desired fit in
        let sets = λ (live : Topic). serves.view-set (merge_topic live desired) (fits live) in
        let held : topics.at first.1.world desired.name ≡ some final =
          ap (λ w. topics.at w desired.name) world
          ∙ at-put_self topics desired.name final s.world in
        let again : kept u desired strategy form (topics.at first.1.world desired.name) ≡ final =
          ap (kept u desired strategy form) held
          ∙ kept_again u desired strategy form made sets found hl hd in
        (
          fine,
          ap (viewed form) held
              ∙ ap (λ b. some b) (view-kept u desired strategy form made sets found),
          fine',
          world'
              ∙ ap (λ r. topics.put desired.name r first.1.world) again
              ∙ topics.put-at desired.name final first.1.world held,
        )
