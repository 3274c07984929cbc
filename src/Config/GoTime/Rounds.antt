-- ===== src/Config/GoTime/Rounds.antt =====
-- The rounds of the loop of `time.ParseDuration`, and the fuel of its model.
use gcp_emulator_provisioner.Prelude.{
  ℕ, suc, zero, ◌+◌, ◌-◌, ◌*◌, ◌/◌, ◌^◌, ◌≤◌, ◌≡◌, refl, Bool, false, ◌||◌, Bool-cases,
  Option-cases, inl, inr, Option, none, some, [], ◌∷◌, arith, Text, length, ltb, is_empty,
  if◌then◌else◌,
}
use gcp_emulator_provisioner.Config.GoTime.{
  Fraction, Number, leading_int, leading_fraction, span_unit, after_point, read_number, parse_part,
  parse_parts,
}

leading_int-shorter :
    (s : Text) (x : ℕ) (v : ℕ) (rest : Text)
    → leading_int s x ≡ some (v, rest)
    → length rest ≤ length s
unfolding leading_int
leading_int-shorter [] x v rest h = ground arith
leading_int-shorter (c ∷ s) x v rest h =
    ground (arith, leading_int-shorter s (x * 10 + (c - b'0')) v rest)

leading_fraction-shorter :
    (s : Text) (x digits : ℕ) (over : Bool) → length (leading_fraction s x digits over).2 ≤ length s
unfolding leading_fraction
leading_fraction-shorter [] x digits over = omega arith
leading_fraction-shorter (c ∷ s) x digits over =
    let y = x * 10 + (c - b'0') in
    let stop = over || ltb ((2 ^ 63 - 1) / 10) x || ltb (2 ^ 63) y in
    ground (
      arith,
      leading_fraction-shorter s (if stop then x else y) (if stop then digits else suc digits) stop,
    )

span_unit-length : (s : Text) → length (span_unit s).0 + length (span_unit s).1 ≡ length s
unfolding span_unit
span_unit-length [] = refl
span_unit-length (c ∷ s) = ground (arith, span_unit-length s)

after_point-shorter : (before s : Text) (v : ℕ) → length (after_point before s v).rest ≤ length s
unfolding after_point
after_point-shorter before [] v = omega arith
after_point-shorter before (c ∷ s) v = ground (arith, leading_fraction-shorter s 0 0 false)

read_number-shorter : (s : Text) (n : Number) → read_number s ≡ some n → length n.rest ≤ length s
unfolding read_number
read_number-shorter s n h = elim (Option-cases (leading_int s 0)) [
  | inl e ↦ absurd (ground arith)
  | inr ((v, rest), e) ↦
      ground (arith, leading_int-shorter s 0 v rest e, after_point-shorter s rest v)
]

length_of_nonempty : (u : Text) → is_empty u ≡ false → 1 ≤ length u
length_of_nonempty [] h = cc
length_of_nonempty (c ∷ u) h = omega arith

same_rest :
    {A B : Type 0} (r : Option A) (k k' : A → Option B)
    → ((a : A) → r ≡ some a → k a ≡ k' a)
    → (elim r [ none ↦ none | some a ↦ k a ]) ≡ (elim r [ none ↦ none | some a ↦ k' a ])
same_rest none k k' h = refl
same_rest (some a) k k' h = h a refl

module _ (fr : Fraction) where
  parse_part-shorter :
      (s : Text) (d d' : ℕ) (rest : Text)
      → parse_part fr s d ≡ some (d', rest)
      → length rest + 1 ≤ length s
  unfolding parse_part
  parse_part-shorter s d d' rest h = elim (Option-cases (read_number s)) [
    | inl e ↦ absurd (ground arith)
    | inr (n, e) ↦ elim (Bool-cases (is_empty (span_unit n.rest).0)) [
      | inl blank ↦ absurd (ground arith)
      | inr unit ↦ ground (
        arith,
        read_number-shorter s n e,
        span_unit-length n.rest,
        length_of_nonempty (span_unit n.rest).0 unit,
      )
    ]
  ]

  -- Any two amounts of fuel that are at least the length of the text give the same result.
  parse_parts_enough :
      (f g : ℕ) (s : Text) (d : ℕ)
      → length s ≤ f
      → length s ≤ g
      → parse_parts fr f s d ≡ parse_parts fr g s d
  unfolding parse_parts
  parse_parts_enough f g [] d h k = refl
  parse_parts_enough zero g (c ∷ s) d h k = absurd (omega (arith, h))
  parse_parts_enough (suc f) zero (c ∷ s) d h k = absurd (omega (arith, k))
  parse_parts_enough (suc f) (suc g) (c ∷ s) d h k =
      same_rest (parse_part fr (c ∷ s) d) (λ (d', rest). parse_parts fr f rest d')
        (λ (d', rest). parse_parts fr g rest d')
        λ (d', rest) e.
          let shorter = parse_part-shorter (c ∷ s) d d' rest e in
          parse_parts_enough f g rest d' (omega (arith, shorter, h)) (omega (arith, shorter, k))

  -- The loop with the fuel that the parser gives it
  abbrev rounds : Text → ℕ → Option ℕ
  rounds s d = parse_parts fr (length s) s d

  -- The loop with its fuel satisfies the equations of the loop without any: it returns its sum at
  -- the end of the text, fails where a round fails, and goes on with the text that a round left.
  rounds_lem :
      (c : ℕ) (s : Text) (d : ℕ)
      → (rounds [] d ≡ some d)
        × (rounds (c ∷ s) d
            ≡ (elim (parse_part fr (c ∷ s) d) [ none ↦ none | some (d', rest) ↦ rounds rest d' ]))
  unfolding parse_parts
  rounds_lem c s d = (
    refl,
    same_rest (parse_part fr (c ∷ s) d) (λ (d', rest). parse_parts fr (length s) rest d')
        (λ (d', rest). rounds rest d')
        λ (d', rest) e.
          let shorter = parse_part-shorter (c ∷ s) d d' rest e in
          parse_parts_enough (length s) (length rest) rest d' (omega (arith, shorter))
            (omega arith),
  )
