-- ===== src/Prelude/Contains.antt =====
-- `strings.Contains` in a text that was extended.
use mathlib.Core.Path.{◌≡◌, refl}
use mathlib.Core.Bool.{true}
use mathlib.Core.List.{[], ◌∷◌, ◌++◌}
use native.Mathlib.Omega.{arith}
use gcp_emulator_provisioner.Prelude.Words.{Text, has_prefix, contains_text}

has_prefix-append : (s b p : Text) → has_prefix s p ≡ true → has_prefix (s ++ b) p ≡ true
unfolding has_prefix
has_prefix-append [] [] [] h = refl
has_prefix-append [] (c ∷ b) [] h = refl
has_prefix-append [] b (d ∷ p) h = cc
has_prefix-append (c ∷ s) b [] h = refl
has_prefix-append (c ∷ s) b (d ∷ p) h = ground (arith, has_prefix-append s b p)

contains_text_more : (s b p : Text) → contains_text s p ≡ true → contains_text (s ++ b) p ≡ true
unfolding contains_text
contains_text_more [] [] p h = h
contains_text_more [] (c ∷ b) p h = ground (arith, has_prefix-append [] (c ∷ b) p)
contains_text_more (c ∷ s) b p h =
    ground (arith, has_prefix-append (c ∷ s) b p, contains_text_more s b p)

contains_text_behind : (a s p : Text) → contains_text s p ≡ true → contains_text (a ++ s) p ≡ true
unfolding contains_text
contains_text_behind [] s p h = h
contains_text_behind (c ∷ a) s p h = ground (arith, contains_text_behind a s p h)

-- A text that contains another still does with more text on both sides.
pub contains_text-append :
    (a s b p : Text) → contains_text s p ≡ true → contains_text (a ++ s ++ b) p ≡ true
contains_text-append a s b p h = contains_text_more (a ++ s) b p (contains_text_behind a s p h)
