-- ===== src/Provisioner/Subscriptions/Convergence.antt =====
-- Runs of `ensureSubscription` of internal/provisioner/subscriptions.go against a service.
use gcp_emulator_provisioner.Prelude.{
  ◌≡◌, refl, sym, ◌∙◌, ap, false, Bool-cases, inl, inr, Option, none, some, List, [], ◌∷◌, ◌++◌,
  arith, Text, ok, ◌==◌,
}
use gcp_emulator_provisioner.Config.Schema
use gcp_emulator_provisioner.Config.Strategy.{create}
use gcp_emulator_provisioner.Client.Resources.{Subscription, FieldPath}
use gcp_emulator_provisioner.Client.Errors.{is_missing}
use gcp_emulator_provisioner.Provisioner.Effects.{
  Act, Run, subscription, unsupported, updating, EndsIn, ◌>>◌,
}
use gcp_emulator_provisioner.Provisioner.Admin.{Options, PubSubAdmin}
use gcp_emulator_provisioner.Provisioner.Update.Masks.{supported, set_all}
use gcp_emulator_provisioner.Provisioner.Service.{
  Table, Support, Form, viewed, IsRefusing, found_get, answer_get, answer_create, answer_update,
  apply_paths-table, at-put_self,
}
use gcp_emulator_provisioner.Provisioner.Subscriptions.Build.{build_subscription}
use gcp_emulator_provisioner.Provisioner.Subscriptions.Build.Laws.{name-build_subscription}
use gcp_emulator_provisioner.Provisioner.Subscriptions.Diff.{diff_subscription, immutable_drift}
use gcp_emulator_provisioner.Provisioner.Subscriptions.Ensure.{
  merge_subscription, warn_immutable, create_missing_subscription, update_subscription,
  reconcile_paths, reconcile_subscription, settle_subscription, ensure_subscription,
}
use gcp_emulator_provisioner.Provisioner.Subscriptions.Drifts.{
  set_subscription, HasMaps, IsFilled, merge_subscription-HasMaps,
}
use gcp_emulator_provisioner.Runtime.{Runtime}
use gcp_emulator_provisioner.Provisioner.Subscriptions.Kept.{ensured, kept, view-kept, kept_again}

-- The subscription calls of an endpoint are those of a service with the given table, for the
-- subscriptions that it accepts: it stores what `fill` makes of one that it is sent. A creation is
-- accepted in the worlds that `creatable` allows.
pub record ServesSubscriptions {W R : Type 0} (admin : PubSubAdmin W) (form : Form R Subscription)
    (subs : Table W R) (u : Support) (fill : Subscription → Subscription)
    (accepts : Subscription → Type 0) (creatable : Subscription → W → Type 0) : Type 0 where
  pub view-make : (d : Subscription) → accepts d → form.view (form.make d) ≡ fill d
  pub view-set :
      (d : Subscription)
      → accepts d
      → (p : FieldPath) (r : R)
      → form.view (form.set d p r) ≡ set_subscription (fill d) p (form.view r)
  pub get : (n : Text) (w : W) → admin.get_subscription n w ≡ answer_get form subs n w
  pub create :
      (d : Subscription) (w : W)
      → accepts d
      → subs.at w d.name ≡ none
      → creatable d w
      → admin.create_subscription d w ≡ answer_create subs d.name (form.make d) w
  pub update :
      (d : Subscription) (mask : List FieldPath) (live : R) (w : W)
      → accepts d
      → subs.at w d.name ≡ some live
      → admin.update_subscription d mask w ≡ answer_update subs (form.set d) u d.name mask w

module _ (rt : Runtime) {W : Type 0} (admin : PubSubAdmin W) (opts : Options) {R : Type 0}
    (form : Form R Subscription) (subs : Table W R) (u : Support) (refusing : IsRefusing rt u)
    (fill : Subscription → Subscription) (accepts : Subscription → Type 0)
    (creatable : Subscription → W → Type 0)
    (serves : ServesSubscriptions admin form subs u fill accepts creatable)
    (applied : opts.dry_run ≡ false) where
  update_subscription-EndsIn :
      (live : R) (desired : Subscription) (mask : List FieldPath) (s : Run W)
      → accepts (merge_subscription (form.view live) desired)
      → subs.at s.world desired.name ≡ some live
      → EndsIn (update_subscription rt admin opts (form.view live) desired mask) s (
          subs.put desired.name
            (set_all
              (form.set (merge_subscription (form.view live) desired))
              (supported u.supports mask)
              live)
            s.world)
  unfolding update_subscription merge_subscription
  update_subscription-EndsIn live desired mask s fit h =
      let merged = merge_subscription (form.view live) desired in
      let after =
        apply_paths-table subs rt u (form.set merged) desired.name refusing
          (λ p. unsupported subscription desired.name p) (admin.update_subscription merged)
          (λ m r w e. serves.update merged m r w fit e) mask live
          (record s { log = s.log ++ (updating subscription desired.name mask ∷ []) }) h in
      (ap (λ r. r.0) after, ap (λ r. r.1.world) after)

  reconcile_paths-EndsIn :
      (live : R) (desired : Subscription) (mask : List FieldPath) (s : Run W)
      → accepts (merge_subscription (form.view live) desired)
      → subs.at s.world desired.name ≡ some live
      → EndsIn (reconcile_paths rt admin opts (form.view live) desired mask) s (
          subs.put desired.name
            (set_all
              (form.set (merge_subscription (form.view live) desired))
              (supported u.supports mask)
              live)
            s.world)
  unfolding reconcile_paths
  reconcile_paths-EndsIn live desired [] s fit h =
      (refl, sym (subs.put-at desired.name live s.world h))
  reconcile_paths-EndsIn live desired (p ∷ mask) s fit h =
      simp applied (update_subscription-EndsIn live desired (p ∷ mask) s fit h)

  -- The warnings change the log alone, so what follows them meets the same world.
  warned-EndsIn :
      (name : Text) (fields : List Text) (m : Act W (Unit {0})) (s : Run W) (w : W)
      → ((t : Run W) → t.world ≡ s.world → EndsIn m t w)
      → EndsIn (warn_immutable name fields >> m) s w
  unfolding warn_immutable
  warned-EndsIn name [] m s w h = h s refl
  warned-EndsIn name (f ∷ fields) m s w h = warned-EndsIn name fields m _ w h

  reconcile_subscription-EndsIn :
      (live : R) (desired : Subscription) (strategy : Text) (s : Run W)
      → accepts (merge_subscription (form.view live) desired)
      → subs.at s.world desired.name ≡ some live
      → EndsIn
          (reconcile_subscription rt admin opts (form.view live) desired strategy)
          s
          (subs.put desired.name (kept u fill desired strategy form (some live)) s.world)
  unfolding reconcile_subscription
  reconcile_subscription-EndsIn live desired strategy s fit h =
      elim (Bool-cases (strategy == create)) [
        | inl same ↦ rw same (refl, sym (subs.put-at desired.name live s.world h))
        | inr differ ↦ rw differ (
            warned-EndsIn desired.name (immutable_drift (form.view live) desired)
              (reconcile_paths rt admin opts (form.view live) desired
                (diff_subscription (form.view live) desired))
              s _
              λ t e. rw (sym e) (
                reconcile_paths-EndsIn live desired (diff_subscription (form.view live) desired) t
                  fit (ap (λ w. subs.at w desired.name) e ∙ h)))
      ]

  settle_subscription-EndsIn :
      (desired : Subscription) (strategy : Text) (s : Run W) (found : Option R)
      → accepts desired
      → ((live : Subscription) → accepts (merge_subscription live desired))
      → subs.at s.world desired.name ≡ found
      → (found ≡ none → creatable desired s.world)
      → EndsIn
          (settle_subscription rt admin opts desired strategy (found_get form s.world found).0)
          (record s { world = (found_get form s.world found).1 })
          (subs.put desired.name (kept u fill desired strategy form found) s.world)
  unfolding settle_subscription create_missing_subscription is_missing
  settle_subscription-EndsIn desired strategy s none fit fits h room =
      simp applied (ground (arith, serves.create desired s.world fit h (room refl)))
  settle_subscription-EndsIn desired strategy s (some live) fit fits h room =
      reconcile_subscription-EndsIn live desired strategy s (fits (form.view live)) h

  module _ (topic_name : Text) (sub : Schema.Subscription) (desired : Subscription)
      (strategy : Text) (built : build_subscription rt topic_name sub ≡ ok desired)
      (fit : accepts desired)
      (fits : (live : Subscription) → accepts (merge_subscription live desired)) where
    pub ensure_subscription-EndsIn :
        (s : Run W)
        → (subs.at s.world desired.name ≡ none → creatable desired s.world)
        → EndsIn (ensure_subscription rt admin opts topic_name sub strategy) s (
            subs.put desired.name
              (kept u fill desired strategy form (subs.at s.world desired.name))
              s.world)
    unfolding ensure_subscription
    ensure_subscription-EndsIn s room =
        rw
          (
            built,
            serves.get sub.name s.world,
            sym (name-build_subscription rt topic_name sub built),
          )
          (settle_subscription-EndsIn desired strategy s (subs.at s.world desired.name) fit fits
            refl room)

    -- Where the service accepts what is sent and keeps what it states, maps have distinct keys and a
    -- missing subscription can be created, a run that applies changes returns no error and leaves the
    -- subscription as `ensured` says: as the service stores the configured one if it was missing, as
    -- it was under the strategy "create", and with each drifting field that the service supports set
    -- otherwise. A second run returns no error and leaves the world as the first one left it.
    pub ensure_subscription_twice :
        (s : Run W)
        → ((d : Subscription) → accepts d → HasMaps d → IsFilled fill d)
        → HasMaps desired
        → ((live : Subscription)
            → viewed form (subs.at s.world desired.name) ≡ some live
            → HasMaps live)
        → (subs.at s.world desired.name ≡ none → creatable desired s.world)
        → let first = ensure_subscription rt admin opts topic_name sub strategy s in
          let second = ensure_subscription rt admin opts topic_name sub strategy first.1 in
          (first.0 ≡ ok tt)
          × (viewed form (subs.at first.1.world desired.name)
              ≡ some (ensured u fill desired strategy (viewed form (subs.at s.world desired.name))))
          × (second.0 ≡ ok tt)
          × (second.1.world ≡ first.1.world)
    ensure_subscription_twice s fills hd hl room =
        let found = subs.at s.world desired.name in
        let final = kept u fill desired strategy form found in
        let first = ensure_subscription rt admin opts topic_name sub strategy s in
        let (fine, world) = ensure_subscription-EndsIn s room in
        let held : subs.at first.1.world desired.name ≡ some final =
          ap (λ w. subs.at w desired.name) world ∙ at-put_self subs desired.name final s.world in
        let (fine', world') =
          ensure_subscription-EndsIn first.1 (λ gone. absurd (cc (gone, held))) in
        let made = serves.view-make desired fit in
        let sets =
          λ (live : Subscription). serves.view-set (merge_subscription live desired) (fits live) in
        let again : kept u fill desired strategy form (subs.at first.1.world desired.name) ≡ final =
          ap (kept u fill desired strategy form) held
          ∙ kept_again u fill desired strategy form made sets (fills desired fit hd)
              (λ live h.
                fills (merge_subscription live desired) (fits live)
                  (merge_subscription-HasMaps live desired h hd))
              hd found hl in
        (
          fine,
          ap (viewed form) held
              ∙ ap (λ b. some b) (view-kept u fill desired strategy form made sets found),
          fine',
          world'
              ∙ ap (λ r. subs.put desired.name r first.1.world) again
              ∙ subs.put-at desired.name final first.1.world held,
        )
