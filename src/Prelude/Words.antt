-- ===== src/Prelude/Words.antt =====
-- Go strings as lists of bytes, and their comparison.
use Prim.Native.Char.{code}
use Prim.Native.Nat.{ℕ}
use Prim.Native.String.{String}
use mathlib.Core.Path.{◌≡◌, refl}
use mathlib.Core.Logic.{ite}
use mathlib.Core.Bool.{Bool, true, false, ◌&&◌, ◌||◌}
use mathlib.Core.List.{List, [], ◌∷◌}
use native.Mathlib.Decide.{ℕ_discrete}
use gcp_emulator_provisioner.Prelude.Tests.{nat_eq}

abbrev pub Text : Type 0
Text = List ℕ

-- An ASCII literal of the source.
abbrev pub codes : String → Text
codes String.[] = []
codes (String.◌∷◌ c s) = code c ∷ codes s

-- Kept shut in proofs, where a split on it yields the equation or its negation.
unfoldable pub text_dec : Discrete Text
unfolding ℕ_discrete
text_dec = hlevel ℕ_discrete

infix 50 ◌==◌
abbrev pub ◌==◌ : Text → Text → Bool
s == t = ite (text_dec s t) true false

abbrev pub is_empty : Text → Bool
is_empty [] = true
is_empty (c ∷ s) = false

-- `strings.HasPrefix(s, p)`
unfoldable pub has_prefix : Text → Text → Bool
has_prefix s [] = true
has_prefix [] (c ∷ p) = false
has_prefix (b ∷ s) (c ∷ p) = nat_eq b c && has_prefix s p

-- `strings.Contains(s, p)`
unfoldable pub contains_text : Text → Text → Bool
unfolding has_prefix
contains_text [] p = has_prefix [] p
contains_text (b ∷ s) p = has_prefix (b ∷ s) p || contains_text s p

test_eq : (codes "abc" == codes "abc") ≡ true
unfolding text_dec
test_eq = refl

test_ne : (codes "abc" == codes "abd") ≡ false
unfolding text_dec
test_ne = refl
