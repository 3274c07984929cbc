-- ===== src/Provisioner/Update/Faults.antt =====
-- `applyPaths` against an endpoint that also fails: it takes a mask, and then cannot do what one of the
-- paths asks for.
use gcp_emulator_provisioner.Prelude.{
  ◌≡◌, true, false, Option, none, some, List, [], ◌∷◌, ◌++◌, map, Result, ok, err, all,
  if◌then◌else◌,
}
use gcp_emulator_provisioner.Client.Resources.{FieldPath}
use gcp_emulator_provisioner.Client.Errors.{Error, is_unsupported_field}
use gcp_emulator_provisioner.Provisioner.Effects.{Act, Run, Event}
use gcp_emulator_provisioner.Provisioner.Update.Masks.{supported, refused, set_all}
use gcp_emulator_provisioner.Provisioner.Update.Laws.{Endpoint}
use gcp_emulator_provisioner.Runtime.{Runtime}

abbrev pub verdict : Option Error → Result Error (Unit {0})
verdict none = ok tt
verdict (some e) = err e

module _ {W : Type 0} (ep : Endpoint W) (fails : FieldPath → Option Error) where
  -- The error of the first path that is supported and fails
  abbrev pub fault : List FieldPath → Option Error
  fault [] = none
  fault (p ∷ paths) =
      if ep.supports p
      then (elim (fails p) [ none ↦ fault paths | some e ↦ some e ])
      else fault paths

  -- The paths before that one
  abbrev pub handled : List FieldPath → List FieldPath
  handled [] = []
  handled (p ∷ paths) =
      if ep.supports p
      then (elim (fails p) [ none ↦ p ∷ handled paths | some e ↦ [] ])
      else p ∷ handled paths

  abbrev settle : Option Error → List FieldPath → Act W (Unit {0})
  settle none mask s = (ok tt, record s { world = set_all ep.set mask s.world })
  settle (some e) mask s = (err e, s)

  -- The whole mask is checked first, and applied if none of its paths fails.
  abbrev pub respond_or_fail : List FieldPath → Act W (Unit {0})
  respond_or_fail mask s =
      if all ep.supports mask then settle (fault mask) mask s else (err (ep.refusal mask), s)

module _ (rt : Runtime) {W : Type 0} (ep : Endpoint W) (fails : FieldPath → Option Error)
    (note : FieldPath → Event) (update : List FieldPath → Act W (Unit {0}))
    (on_unsupported : FieldPath → Act W (Unit {0}))
    (updates : (mask : List FieldPath) (s : Run W)
      → update mask s ≡ respond_or_fail ep fails mask s)
    (notes : (p : FieldPath) (s : Run W)
      → on_unsupported p s ≡ (ok tt, record s { log = s.log ++ (note p ∷ []) }))
    (refuses : (mask : List FieldPath) → is_unsupported_field rt (ep.refusal mask) ≡ true)
    (fatal : (p : FieldPath) (e : Error)
      → fails p ≡ some e
      → is_unsupported_field rt e ≡ false) where
  -- What is left once some paths were sent one by one
  abbrev pub reached : List FieldPath → Run W → Run W
  reached paths s = record {
    world = set_all ep.set (supported ep.supports paths) s.world;
    log = s.log ++ map note (refused ep.supports paths);
  }
