-- ===== src/Provisioner/Update/Laws.antt =====
-- `applyPaths` against an endpoint that checks a whole mask before it touches the resource.
use mathlib.Core.List.{append-nil, append_assoc}
use gcp_emulator_provisioner.Prelude.{
  ◌≡◌, ◌∙◌, Bool, true, false, Bool-cases, inl, inr, List, [], ◌∷◌, ◌++◌, map, arith, ok, err, all,
  if◌then◌else◌,
}
use gcp_emulator_provisioner.Client.Resources.{FieldPath}
use gcp_emulator_provisioner.Client.Errors.{Error, is_unsupported_field}
use gcp_emulator_provisioner.Provisioner.Effects.{Act, Run, Event}
use gcp_emulator_provisioner.Provisioner.Update.Masks.{
  supported, refused, supported_of_all, refused_of_all, set_all,
}
use gcp_emulator_provisioner.Provisioner.Update.{apply_each, split_batch, apply_paths}
use gcp_emulator_provisioner.Runtime.{Runtime}

-- An endpoint: the paths that it supports, what each of them does, and its answer to a mask that
-- names another.
pub record Endpoint (W : Type 0) : Type 0 where
  pub supports : FieldPath → Bool
  pub set : FieldPath → W → W
  pub refusal : List FieldPath → Error

module _ {W : Type 0} (ep : Endpoint W) where
  -- The whole mask is checked first: it is applied, or nothing is.
  abbrev pub respond : List FieldPath → Act W (Unit {0})
  respond mask s =
      if all ep.supports mask
      then (ok tt, record s { world = set_all ep.set mask s.world })
      else (err (ep.refusal mask), s)

module _ (rt : Runtime) {W : Type 0} (ep : Endpoint W) (note : FieldPath → Event)
    (update : List FieldPath → Act W (Unit {0})) (on_unsupported : FieldPath → Act W (Unit {0}))
    (P : W → Type 0) (keeps : (p : FieldPath) (w : W) → P w → P (ep.set p w))
    (updates : (mask : List FieldPath) (s : Run W) → P s.world → update mask s ≡ respond ep mask s)
    (notes : (p : FieldPath) (s : Run W)
      → on_unsupported p s ≡ (ok tt, record s { log = s.log ++ (note p ∷ []) }))
    (refuses : (mask : List FieldPath) → is_unsupported_field rt (ep.refusal mask) ≡ true) where
  abbrev pub outcome : List FieldPath → Run W → Run W
  outcome paths s = record {
    world = set_all ep.set (supported ep.supports paths) s.world;
    log = s.log ++ map note (refused ep.supports paths);
  }

  apply_each_lem :
      (paths : List FieldPath) (s : Run W)
      → P s.world
      → apply_each rt update on_unsupported paths s ≡ (ok tt, outcome paths s)
  unfolding apply_each
  apply_each_lem [] s h = rw append-nil
  apply_each_lem (p ∷ paths) s h = elim (Bool-cases (ep.supports p)) [
    | inl yes_p ↦ rw (updates (p ∷ []) s h, yes_p) (apply_each_lem paths _ (keeps p s.world h))
    | inr no_p ↦
        rw (updates (p ∷ []) s h, no_p, refuses, notes) (apply_each_lem paths _ h ∙ rw append_assoc)
  ]

  outcome_of_all :
      (paths : List FieldPath) (s : Run W)
      → all ep.supports paths ≡ true
      → record s { world = set_all ep.set paths s.world } ≡ outcome paths s
  outcome_of_all paths s h =
      rw (supported_of_all ep.supports paths h, refused_of_all ep.supports paths h, append-nil)

  split_batch_lem :
      (paths : List FieldPath) (s : Run W)
      → P s.world
      → all ep.supports paths ≡ false
      → split_batch rt update on_unsupported paths s ≡ (ok tt, outcome paths s)
  unfolding split_batch
  split_batch_lem [] s w h = cc
  split_batch_lem (p ∷ []) s w h = ground (arith, notes p s)
  split_batch_lem (p ∷ q ∷ paths) s w h = apply_each_lem (p ∷ q ∷ paths) s w

  -- Against an endpoint that checks the whole mask before it touches the resource and whose refusals
  -- are of the unsupported kind, the call returns no error for any mask. The endpoint ends with
  -- each path of the mask that it supports applied, in the order of the mask, and no other; the log
  -- gains one line for each path that it refused, in that order.
  pub apply_paths-eq-outcome :
      (paths : List FieldPath) (s : Run W)
      → P s.world
      → apply_paths rt update on_unsupported paths s ≡ (ok tt, outcome paths s)
  unfolding apply_paths
  apply_paths-eq-outcome paths s w = elim (Bool-cases (all ep.supports paths)) [
    | inl h ↦ rw (updates paths s w, h) (λ i. (ok tt, outcome_of_all paths s h i))
    | inr h ↦ rw (updates paths s w, h, refuses) (split_batch_lem paths s w h)
  ]
