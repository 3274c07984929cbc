-- ===== src/Provisioner/Update/Masks.antt =====
-- Masks of field paths: the parts of a mask that an endpoint supports and refuses, what a mask does
-- to a resource field by field, and the fields that drift after it was applied.
use gcp_emulator_provisioner.Prelude.{
  ◌≡◌, refl, ◌≢◌, Bool, true, false, not, ◌&&◌, List, [], ◌∷◌, ◌++◌, arith, all, ite, if◌then◌else◌,
}
use gcp_emulator_provisioner.Client.Resources.{FieldPath, FieldPath-discrete}

-- One `append` of a path under a test
abbrev pub when : Bool → FieldPath → List FieldPath
when true p = p ∷ []
when false p = []

module _ (supports : FieldPath → Bool) where
  abbrev pub supported : List FieldPath → List FieldPath
  supported [] = []
  supported (p ∷ paths) = if supports p then p ∷ supported paths else supported paths

  abbrev pub refused : List FieldPath → List FieldPath
  refused [] = []
  refused (p ∷ paths) = if supports p then refused paths else p ∷ refused paths

  pub supported_of_all :
      (paths : List FieldPath) → all supports paths ≡ true → supported paths ≡ paths
  supported_of_all [] h = refl
  supported_of_all (p ∷ paths) h = ground (arith, supported_of_all paths)

  pub refused_of_all : (paths : List FieldPath) → all supports paths ≡ true → refused paths ≡ []
  refused_of_all [] h = refl
  refused_of_all (p ∷ paths) h = ground (arith, refused_of_all paths)

  pub supported-refused : (paths : List FieldPath) → supported (refused paths) ≡ []
  supported-refused [] = refl
  supported-refused (p ∷ paths) = ground (arith, supported-refused paths)

-- The fields of a mask, set in its order
abbrev pub set_all {ℓ} : {R : Type ℓ} → (FieldPath → R → R) → List FieldPath → R → R
set_all set [] r = r
set_all set (p ∷ paths) r = set_all set paths (set p r)

-- The paths of a list whose field drifts
abbrev pub drifted {ℓ} : {R : Type ℓ} → (FieldPath → R → Bool) → List FieldPath → R → List FieldPath
drifted drifts [] r = []
drifted drifts (p ∷ paths) r = when (drifts p r) p ++ drifted drifts paths r

pub drifted_of_none {ℓ} :
    {R : Type ℓ} (drifts : FieldPath → R → Bool) (paths : List FieldPath) (r : R)
    → ((p : FieldPath) → drifts p r ≡ false)
    → drifted drifts paths r ≡ []
drifted_of_none drifts [] r h = refl
drifted_of_none drifts (p ∷ paths) r h = rw (h p) (drifted_of_none drifts paths r h)

abbrev pub named : FieldPath → List FieldPath → Bool
named p [] = false
named p (q ∷ paths) = ite (FieldPath-discrete p q) true (named p paths)

pub drifted_of_named {ℓ} :
    {R : Type ℓ} (drifts : FieldPath → R → Bool) (p : FieldPath) (paths : List FieldPath) (r : R)
    → named p paths ≡ true
    → drifts p r ≡ true
    → drifted drifts paths r ≢ []
drifted_of_named drifts p [] r h d e = cc
drifted_of_named drifts p (q ∷ paths) r h d e = ground (arith, drifted_of_named drifts p paths r)

pub named-drifted {ℓ} :
    {R : Type ℓ} (drifts : FieldPath → R → Bool) (p : FieldPath) (paths : List FieldPath) (r : R)
    → named p (drifted drifts paths r) ≡ (named p paths && drifts p r)
named-drifted drifts p [] r = refl
named-drifted drifts p (q ∷ paths) r = ground (arith, named-drifted drifts p paths r)

module _ {ℓ} {R : Type ℓ} (drifts : FieldPath → R → Bool) (set : FieldPath → R → R)
    (settles : (p : FieldPath) (r : R) → drifts p (set p r) ≡ false)
    (apart : (p q : FieldPath) (r : R) → p ≢ q → drifts p (set q r) ≡ drifts p r)
    (supports : FieldPath → Bool) where
  -- A field drifts after a mask if it did and the mask does not name it.
  drifts-set_all :
      (p : FieldPath) (mask : List FieldPath) (r : R)
      → drifts p (set_all set mask r) ≡ (drifts p r && not (named p mask))
  drifts-set_all p [] r = ground arith
  drifts-set_all p (q ∷ mask) r =
      ground (arith, drifts-set_all p mask (set q r), settles q r, apart p q r)

  named-supported :
      (p : FieldPath) (paths : List FieldPath) (r : R)
      → named p (supported supports (drifted drifts paths r))
        ≡ (named p paths && (supports p && drifts p r))
  named-supported p [] r = refl
  named-supported p (q ∷ paths) r = ground (arith, named-supported p paths r)

  drifted-set_all_within :
      (paths known : List FieldPath) (r : R)
      → ((p : FieldPath) → named p paths ≡ true → named p known ≡ true)
      → drifted drifts paths (set_all set (supported supports (drifted drifts known r)) r)
        ≡ refused supports (drifted drifts paths r)
  drifted-set_all_within [] known r h = refl
  drifted-set_all_within (p ∷ paths) known r h = ground (
    arith,
    h p,
    drifts-set_all p (supported supports (drifted drifts known r)) r,
    named-supported p known r,
    drifted-set_all_within paths known r (λ q n. h q (ground arith)),
  )

  -- After the supported part of the fields that drift was set, the refused part drifts, and no
  -- other field does.
  pub drifted-set_all :
      (paths : List FieldPath) (r : R)
      → drifted drifts paths (set_all set (supported supports (drifted drifts paths r)) r)
        ≡ refused supports (drifted drifts paths r)
  drifted-set_all paths r = drifted-set_all_within paths paths r (λ p h. h)
