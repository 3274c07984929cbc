-- ===== src/Prelude/Int.antt =====
-- Signed integers over the native numbers, under the library's names, and Go's `int64` and `int32`.
use Prim.Native.Nat.{ℕ, zero, suc, ◌+◌, ◌-◌, ◌*◌, ◌%◌, ◌^◌, ◌≤◌}
use mathlib.Core.Path.{◌≡◌, refl}
use mathlib.Core.Bool.{Bool, true, false}
use native.Mathlib.Omega.{arith}
use gcp_emulator_provisioner.Prelude.{ltb, leb, nat_eq, if◌then◌else◌}

-- `negsuc n` is -(n + 1).
pub data ℤ : Type 0 where
  pos : ℕ → ℤ
  negsuc : ℕ → ℤ

abbrev pub pos_part : ℤ → ℕ
pos_part (pos n) = n
pos_part (negsuc n) = 0

abbrev pub neg_part : ℤ → ℕ
neg_part (pos n) = 0
neg_part (negsuc n) = suc n

-- a - b, as an integer.
abbrev pub sub_ℕ : ℕ → ℕ → ℤ
sub_ℕ a b = if leb b a then pos (a - b) else negsuc (b - a - 1)

infixl 70 ◌*ℤ◌
infix 50 ◌≤ℤ◌
unfoldable pub ◌*ℤ◌ : ℤ → ℤ → ℤ
a *ℤ b =
    sub_ℕ (pos_part a * pos_part b + neg_part a * neg_part b)
      (pos_part a * neg_part b + neg_part a * pos_part b)

abbrev pub ◌≤ℤ◌ : ℤ → ℤ → Type 0
a ≤ℤ b = pos_part a + neg_part b ≤ pos_part b + neg_part a

abbrev pub ltb_ℤ : ℤ → ℤ → Bool
ltb_ℤ a b = ltb (pos_part a + neg_part b) (pos_part b + neg_part a)

abbrev pub eq_ℤ : ℤ → ℤ → Bool
eq_ℤ (pos a) (pos b) = nat_eq a b
eq_ℤ (negsuc a) (negsuc b) = nat_eq a b
eq_ℤ _ _ = false

-- -n
abbrev pub neg_of : ℕ → ℤ
neg_of zero = pos 0
neg_of (suc n) = negsuc n

-- The number that the low bits of `a` stand for in two's complement, where `m` is 2^w and `h` is
-- 2^(w-1).
abbrev wrap : ℕ → ℕ → ℤ → ℤ
wrap m h (pos n) = if ltb (n % m) h then pos (n % m) else negsuc (m - 1 - n % m)
wrap m h (negsuc n) = if ltb (n % m) h then negsuc (n % m) else pos (m - 1 - n % m)

unfoldable pub to_int64 : ℤ → ℤ
to_int64 a = wrap (2 ^ 64) (2 ^ 63) a

unfoldable pub to_int32 : ℤ → ℤ
to_int32 a = wrap (2 ^ 32) (2 ^ 31) a

abbrev pub IsInt64 : ℤ → Type 0
IsInt64 a = (pos_part a + 1 ≤ 2 ^ 63) × (neg_part a ≤ 2 ^ 63)

pub to_int64-IsInt64 : (a : ℤ) → IsInt64 (to_int64 a)
unfolding to_int64
to_int64-IsInt64 (pos n) = ground arith
to_int64-IsInt64 (negsuc n) = ground arith

pub to_int64_id : (a : ℤ) → IsInt64 a → to_int64 a ≡ a
unfolding to_int64
to_int64_id (pos n) h = ground arith
to_int64_id (negsuc n) h = ground arith

wrapped : to_int64 (pos (2 ^ 63)) ≡ negsuc (2 ^ 63 - 1)
unfolding to_int64
wrapped = refl

wrapped_32 : to_int32 (negsuc (2 ^ 31)) ≡ pos (2 ^ 31 - 1)
unfolding to_int32
wrapped_32 = refl

pub eq_ℤ-refl : (a : ℤ) → eq_ℤ a a ≡ true
eq_ℤ-refl (pos n) = ground arith
eq_ℤ-refl (negsuc n) = ground arith

pub eq_ℤ-eq : (a b : ℤ) → eq_ℤ a b ≡ true → a ≡ b
eq_ℤ-eq (pos a) (pos b) h = ground arith
eq_ℤ-eq (negsuc a) (negsuc b) h = ground arith
eq_ℤ-eq (pos a) (negsuc b) h = cc
eq_ℤ-eq (negsuc a) (pos b) h = cc
