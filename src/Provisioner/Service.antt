-- ===== src/Provisioner/Service.antt =====
-- A Pub/Sub service as internal/provisioner/update.go describes it: resources under their names, a
-- creation that keeps what was sent, and an update that checks its whole mask before it touches the
-- resource. The specification that the handlers are proved against.
use gcp_emulator_provisioner.Prelude.{
  ◌≡◌, refl, sym, ◌∙◌, ap, Bool, true, Option, none, some, List, [], ◌∷◌, ◌++◌, map, arith, Text,
  ok, err, Result, ◌==◌, all, if◌then◌else◌,
}
use gcp_emulator_provisioner.Client.Resources.{FieldPath}
use gcp_emulator_provisioner.Client.Errors.{Error, missing, is_unsupported_field}
use gcp_emulator_provisioner.Provisioner.Effects.{Run, Event, call, write_log}
use gcp_emulator_provisioner.Provisioner.Admin.{Method}
use gcp_emulator_provisioner.Provisioner.Update.{apply_paths}
use gcp_emulator_provisioner.Provisioner.Update.Masks.{supported, refused, set_all}
use gcp_emulator_provisioner.Provisioner.Update.Laws.{Endpoint, apply_paths-eq-outcome}
use gcp_emulator_provisioner.Runtime.{Runtime}

-- A map from names to resources inside a state
pub record Table (W R : Type 0) : Type 0 where
  pub at : W → Text → Option R
  pub put : Text → R → W → W
  pub at-put :
      (n : Text) (r : R) (w : W) (j : Text) → at (put n r w) j ≡ (if n == j then some r else at w j)
  pub put-put : (n : Text) (r r' : R) (w : W) → put n r (put n r' w) ≡ put n r w
  pub put-at : (n : Text) (r : R) (w : W) → at w n ≡ some r → put n r w ≡ w

-- Which paths the service supports in a mask, and its answer to a mask for a resource that names
-- another
pub record Support : Type 0 where
  pub supports : FieldPath → Bool
  pub refusal : Text → List FieldPath → Error

abbrev pub IsRefusing : Runtime → Support → Type 0
IsRefusing rt u =
    (n : Text) (mask : List FieldPath) → is_unsupported_field rt (u.refusal n mask) ≡ true

-- How a service keeps resources: what is read back of one, what a creation makes of what it is sent,
-- and what an update does for one path of its mask
pub record Form (R B : Type 0) : Type 0 where
  pub view : R → B
  pub make : B → R
  pub set : B → FieldPath → R → R

-- A service that keeps resources as they are sent
abbrev pub as_sent : {B : Type 0} → (B → FieldPath → B → B) → Form B B
as_sent set = record { view = λ b. b; make = λ b. b; set = set }

abbrev pub viewed : {R B : Type 0} → Form R B → Option R → Option B
viewed form none = none
viewed form (some r) = some (form.view r)

-- The answer to a read
abbrev pub found_get : {W R B : Type 0} → Form R B → W → Option R → Result Error B × W
found_get form w none = (err missing, w)
found_get form w (some r) = (ok (form.view r), w)

abbrev pub answer_get : {W R B : Type 0} → Form R B → Table W R → Text → Method W B
answer_get form table n w = found_get form w (table.at w n)

pub view-set_all :
    {R B : Type 0} (form : Form R B) (set : FieldPath → B → B) (b : B)
    → ((p : FieldPath) (r : R) → form.view (form.set b p r) ≡ set p (form.view r))
    → (mask : List FieldPath) (r : R)
    → form.view (set_all (form.set b) mask r) ≡ set_all set mask (form.view r)
view-set_all form set b h [] r = refl
view-set_all form set b h (p ∷ mask) r =
    view-set_all form set b h mask (form.set b p r) ∙ ap (set_all set mask) (h p r)

module _ {W R : Type 0} (table : Table W R) where
  abbrev pub answer_create : Text → R → Method W (Unit {0})
  answer_create n r w = (ok tt, table.put n r w)

  abbrev pub found_update :
      (FieldPath → R → R)
      → Support
      → Text
      → List FieldPath
      → W
      → Option R
      → Result Error (Unit {0}) × W
  found_update set u n mask w none = (err missing, w)
  found_update set u n mask w (some live) =
      if all u.supports mask
      then (ok tt, table.put n (set_all set mask live) w)
      else (err (u.refusal n mask), w)

  abbrev pub answer_update :
      (FieldPath → R → R) → Support → Text → List FieldPath → Method W (Unit {0})
  answer_update set u n mask w = found_update set u n mask w (table.at w n)

  pub at-put_self : (n : Text) (r : R) (w : W) → table.at (table.put n r w) n ≡ some r
  at-put_self n r w = table.at-put n r w n ∙ ground arith

  module _ (set : FieldPath → R → R) (n : Text) where
    set_found : FieldPath → W → Option R → W
    set_found p w none = w
    set_found p w (some live) = table.put n (set p live) w

    set_at : FieldPath → W → W
    unfolding set_found
    set_at p w = set_found p w (table.at w n)

    set_at_lem :
        (p : FieldPath) (live : R) (w : W)
        → table.at w n ≡ some live
        → set_at p w ≡ table.put n (set p live) w
    unfolding set_at
    set_at_lem p live w h = ap (set_found p w) h

    set_all-set_at :
        (mask : List FieldPath) (live : R) (w : W)
        → table.at w n ≡ some live
        → set_all set_at mask w ≡ table.put n (set_all set mask live) w
    set_all-set_at [] live w h = sym (table.put-at n live w h)
    set_all-set_at (p ∷ mask) live w h = rw (set_at_lem p live w h) (
        set_all-set_at mask (set p live) (table.put n (set p live) w) (at-put_self n (set p live) w)
        ∙ table.put-put n (set_all set mask (set p live)) (set p live) w)

  module _ (rt : Runtime) (u : Support) (set : FieldPath → R → R) (n : Text)
      (refusing : IsRefusing rt u) (note : FieldPath → Event) where
    abbrev Held : W → Type 0
    Held w = (r : R) × (table.at w n ≡ some r)

    abbrev endpoint : Endpoint W
    endpoint = record { supports = u.supports; set = set_at set n; refusal = u.refusal n }

    set_at-Held : (p : FieldPath) (w : W) → Held w → Held (set_at set n p w)
    set_at-Held p w (r, h) =
        (set p r, ap (λ v. table.at v n) (set_at_lem set n p r w h) ∙ at-put_self n (set p r) w)

    answers :
        (mask : List FieldPath) (live : R) (w : W)
        → table.at w n ≡ some live
        → answer_update set u n mask w ≡ (
            if all u.supports mask
            then (ok tt, set_all (set_at set n) mask w)
            else (err (u.refusal n mask), w))
    answers mask live w h =
        ap (found_update set u n mask w) h ∙ ground (arith, set_all-set_at set n mask live w)

    -- `applyPaths` at this service: the supported part of the mask is set, the rest is logged.
    pub apply_paths-table :
        (update : List FieldPath → Method W (Unit {0}))
        (updates : (m : List FieldPath) (r : R) (w : W)
          → table.at w n ≡ some r
          → update m w ≡ answer_update set u n m w)
        (mask : List FieldPath) (live : R) (s : Run W)
        → table.at s.world n ≡ some live
        → apply_paths rt (λ m. call (update m)) (λ p. write_log (note p)) mask s ≡ (
          ok tt,
          record {
            world = table.put n (set_all set (supported u.supports mask) live) s.world;
            log = s.log ++ map note (refused u.supports mask);
          },
        )
    apply_paths-table update updates mask live s h =
        apply_paths-eq-outcome rt endpoint note (λ m. call (update m)) (λ p. write_log (note p))
          Held set_at-Held
          (λ m t (r, e). ground (arith, updates m r t.world e, answers m r t.world e)) (λ p t. refl)
          (refusing n) mask s (live, h)
        ∙ rw (set_all-set_at set n (supported u.supports mask) live s.world h)
