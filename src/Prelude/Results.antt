-- ===== src/Prelude/Results.antt =====
-- A call that may return an error, over any type of errors, and its sequencing.
use mathlib.Core.Path.{◌≡◌, refl}
use mathlib.Core.Bool.{Bool, true, false}

pub data Result {ℓ κ} (E : Type ℓ) (A : Type κ) : Type (ℓ ⊔ κ) where
  err : E → Result E A
  ok : A → Result E A

module _ {ℓ κ} {E : Type ℓ} {B : Type κ} where
  -- `if err != nil { return err }` between two steps
  abbrev pub after_value {ι} : {A : Type ι} → (A → Result E B) → Result E A → Result E B
  after_value next (err e) = err e
  after_value next (ok a) = next a

  infixl 5 ◌>>=◌ ◌>>◌
  abbrev pub ◌>>=◌ {ι} : {A : Type ι} → Result E A → (A → Result E B) → Result E B
  r >>= next = after_value next r

  abbrev pub ◌>>◌ : Result E (Unit {0}) → Result E B → Result E B
  check >> rest = after_value (λ passed. rest) check

  -- A sequence that returns a value got one from its first step.
  pub >>=-eq-ok {ι} :
      {A : Type ι} (r : Result E A) (next : A → Result E B) {b : B}
      → (r >>= next) ≡ ok b
      → (a : A) × (r ≡ ok a) × (next a ≡ ok b)
  >>=-eq-ok (err e) next h = cc
  >>=-eq-ok (ok a) next h = (a, refl, h)

  pub >>-eq-ok :
      (check : Result E (Unit {0})) (rest : Result E B) {b : B}
      → (check >> rest) ≡ ok b
      → (check ≡ ok tt) × (rest ≡ ok b)
  >>-eq-ok (err e) rest h = cc
  >>-eq-ok (ok tt) rest h = (refl, h)

-- `if bad { return e }`
abbrev pub reject {ℓ} : {E : Type ℓ} → Bool → E → Result E (Unit {0})
reject false e = ok tt
reject true e = err e

pub reject-eq-ok {ℓ} : {E : Type ℓ} (bad : Bool) (e : E) → reject bad e ≡ ok tt → bad ≡ false
reject-eq-ok false e h = refl
reject-eq-ok true e h = cc
