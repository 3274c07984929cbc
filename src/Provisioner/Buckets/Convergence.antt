-- ===== src/Provisioner/Buckets/Convergence.antt =====
-- Runs of `ensureBucket` of internal/provisioner/buckets.go against a service.
use gcp_emulator_provisioner.Prelude.{
  ◌≡◌, refl, sym, ◌∙◌, ap, Bool, true, false, Bool-cases, inl, inr, Option, none, some, List, [],
  ◌∷◌, arith, Text, ok, err, Result, ◌==◌, if◌then◌else◌,
}
use gcp_emulator_provisioner.Config.Schema
use gcp_emulator_provisioner.Config.Strategy.{create}
use gcp_emulator_provisioner.Client.Resources.{Bucket, deref_bool}
use gcp_emulator_provisioner.Client.Errors.{Error, missing_bucket, is_missing_bucket}
use gcp_emulator_provisioner.Provisioner.Effects.{Act, Run, EndsIn, ◌>>◌}
use gcp_emulator_provisioner.Provisioner.Admin.{Options, StorageAdmin}
use gcp_emulator_provisioner.Provisioner.Service.{Table, at-put_self}
use gcp_emulator_provisioner.Provisioner.Subscriptions.Diff.{eq_bool}
use gcp_emulator_provisioner.Provisioner.Buckets.{
  create_only_drift, build_bucket, create_missing_bucket, set_versioning_to, ensure_versioning,
  warn_create_only, reconcile_bucket, settle_bucket, ensure_bucket,
}
use gcp_emulator_provisioner.Runtime.{Runtime}

-- The answer to a look-up
abbrev pub found_bucket : {W : Type 0} → W → Option Bucket → Result Error Bucket × W
found_bucket w none = (err missing_bucket, w)
found_bucket w (some b) = (ok b, w)

-- The calls of an endpoint are those of a service that keeps its buckets in a table.
pub record ServesBuckets {W : Type 0} (admin : StorageAdmin W) (buckets : Table W Bucket)
    : Type 0 where
  pub get : (n : Text) (w : W) → admin.get_bucket n w ≡ found_bucket w (buckets.at w n)
  pub create :
      (b : Bucket) (w : W)
      → buckets.at w b.name ≡ none
      → admin.create_bucket b w ≡ (ok tt, buckets.put b.name b w)
  pub set_versioning :
      (n : Text) (v : Bool) (live : Bucket) (w : W)
      → buckets.at w n ≡ some live
      → admin.set_versioning n v w
        ≡ (ok tt, buckets.put n (record live { versioning_enabled = v }) w)

-- A bucket after its versioning was reconciled: an omitted flag leaves it alone.
abbrev pub with_versioning : Option Bool → Bucket → Bucket
with_versioning none live = live
with_versioning (some v) live = record live { versioning_enabled = v }

with_versioning_again :
    (v : Option Bool) (live : Bucket)
    → with_versioning v (with_versioning v live) ≡ with_versioning v live
with_versioning_again none live = refl
with_versioning_again (some v) live = refl

with_versioning_of_deref :
    (v : Option Bool) (b : Bucket) → b.versioning_enabled ≡ deref_bool v → with_versioning v b ≡ b
with_versioning_of_deref none b h = refl
with_versioning_of_deref (some v) b h = rw (sym h) refl

eq_bool-eq : (a b : Bool) → eq_bool a b ≡ true → a ≡ b
eq_bool-eq true b h = sym h
eq_bool-eq false true h = cc
eq_bool-eq false false h = refl

module _ (rt : Runtime) (b : Schema.Bucket) (strategy : Text) where
  -- What a run makes of a bucket that may be there
  abbrev pub ensured : Option Bucket → Bucket
  ensured none = build_bucket rt b
  ensured (some live) = if strategy == create then live else with_versioning b.versioning live

  ensured_again : (found : Option Bucket) → ensured (some (ensured found)) ≡ ensured found
  unfolding build_bucket
  ensured_again none = elim (Bool-cases (strategy == create)) [
    | inl same ↦ rw same refl
    | inr differ ↦ rw differ (with_versioning_of_deref b.versioning (build_bucket rt b) refl)
  ]
  ensured_again (some live) = elim (Bool-cases (strategy == create)) [
    | inl same ↦ rw same refl
    | inr differ ↦ rw differ (with_versioning_again b.versioning live)
  ]

module _ (rt : Runtime) {W : Type 0} (admin : StorageAdmin W) (opts : Options)
    (buckets : Table W Bucket) (serves : ServesBuckets admin buckets)
    (applied : opts.dry_run ≡ false) where
  set_versioning_to-EndsIn :
      (n : Text) (v : Bool) (live : Bucket) (s : Run W)
      → buckets.at s.world n ≡ some live
      → EndsIn
          (set_versioning_to rt admin opts n live.versioning_enabled v)
          s
          (buckets.put n (record live { versioning_enabled = v }) s.world)
  unfolding set_versioning_to
  set_versioning_to-EndsIn n v live s h = elim (Bool-cases (eq_bool live.versioning_enabled v)) [
    | inl same ↦
        rw (same, sym (eq_bool-eq live.versioning_enabled v same))
          (refl, sym (buckets.put-at n live s.world h))
    | inr differ ↦
        rw differ (simp applied (rw (serves.set_versioning n v live s.world h) (refl, refl)))
  ]

  warned-EndsIn :
      (name : Text) (fields : List Text) (m : Act W (Unit {0})) (s : Run W) (w : W)
      → ((t : Run W) → t.world ≡ s.world → EndsIn m t w)
      → EndsIn (warn_create_only rt admin opts name fields >> m) s w
  unfolding warn_create_only
  warned-EndsIn name [] m s w h = h s refl
  warned-EndsIn name (f ∷ fields) m s w h = warned-EndsIn name fields m _ w h

  ensure_versioning-EndsIn :
      (n : Text) (v : Option Bool) (live : Bucket) (s : Run W)
      → buckets.at s.world n ≡ some live
      → EndsIn
          (ensure_versioning rt admin opts n v live)
          s
          (buckets.put n (with_versioning v live) s.world)
  unfolding ensure_versioning
  ensure_versioning-EndsIn n none live s h = (refl, sym (buckets.put-at n live s.world h))
  ensure_versioning-EndsIn n (some v) live s h = set_versioning_to-EndsIn n v live s h

  reconcile_bucket-EndsIn :
      (b : Schema.Bucket) (live : Bucket) (strategy : Text) (s : Run W)
      → buckets.at s.world b.name ≡ some live
      → EndsIn
          (reconcile_bucket rt admin opts b live strategy)
          s
          (buckets.put b.name (ensured rt b strategy (some live)) s.world)
  unfolding reconcile_bucket
  reconcile_bucket-EndsIn b live strategy s h = elim (Bool-cases (strategy == create)) [
    | inl same ↦ rw same (refl, sym (buckets.put-at b.name live s.world h))
    | inr differ ↦ rw differ (
        warned-EndsIn b.name
          (if opts.compare_create_only_bucket_attrs then create_only_drift rt b live else [])
          (ensure_versioning rt admin opts b.name b.versioning live) s _
          λ t e. rw (sym e) (
            ensure_versioning-EndsIn b.name b.versioning live t
              (ap (λ w. buckets.at w b.name) e ∙ h)))
  ]

  settle_bucket-EndsIn :
      (b : Schema.Bucket) (strategy : Text) (s : Run W) (found : Option Bucket)
      → buckets.at s.world b.name ≡ found
      → EndsIn
          (settle_bucket rt admin opts b strategy (found_bucket s.world found).0)
          (record s { world = (found_bucket s.world found).1 })
          (buckets.put b.name (ensured rt b strategy found) s.world)
  unfolding settle_bucket create_missing_bucket is_missing_bucket build_bucket
  settle_bucket-EndsIn b strategy s none h =
      simp applied (ground (arith, serves.create (build_bucket rt b) s.world h))
  settle_bucket-EndsIn b strategy s (some live) h = reconcile_bucket-EndsIn b live strategy s h

  ensure_bucket-EndsIn :
      (b : Schema.Bucket) (strategy : Text) (s : Run W)
      → EndsIn
          (ensure_bucket rt admin opts b strategy)
          s
          (buckets.put b.name (ensured rt b strategy (buckets.at s.world b.name)) s.world)
  unfolding ensure_bucket
  ensure_bucket-EndsIn b strategy s =
      rw (serves.get b.name s.world)
        (settle_bucket-EndsIn b strategy s (buckets.at s.world b.name) refl)

  -- A run that applies changes returns no error and leaves the bucket as `ensured` says: as
  -- configured if it was missing, as it was under the strategy "create", and with the configured
  -- versioning, if that is given, otherwise. A second run returns no error and leaves the world as
  -- the first one left it.
  pub ensure_bucket_twice :
      (b : Schema.Bucket) (strategy : Text) (s : Run W)
      → let first = ensure_bucket rt admin opts b strategy s in
        let second = ensure_bucket rt admin opts b strategy first.1 in
        (first.0 ≡ ok tt)
        × (buckets.at first.1.world b.name
            ≡ some (ensured rt b strategy (buckets.at s.world b.name)))
        × (second.0 ≡ ok tt)
        × (second.1.world ≡ first.1.world)
  ensure_bucket_twice b strategy s =
      let final = ensured rt b strategy (buckets.at s.world b.name) in
      let first = ensure_bucket rt admin opts b strategy s in
      let (fine, world) = ensure_bucket-EndsIn b strategy s in
      let (fine', world') = ensure_bucket-EndsIn b strategy first.1 in
      let held : buckets.at first.1.world b.name ≡ some final =
        ap (λ w. buckets.at w b.name) world ∙ at-put_self buckets b.name final s.world in
      (
        fine,
        held,
        fine',
        world'
            ∙ ap (λ o. buckets.put b.name (ensured rt b strategy o) first.1.world) held
            ∙ ap (λ r. buckets.put b.name r first.1.world)
                (ensured_again rt b strategy (buckets.at s.world b.name))
            ∙ buckets.put-at b.name final first.1.world held,
      )
