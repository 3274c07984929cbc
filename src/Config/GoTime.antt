-- ===== src/Config/GoTime.antt =====
-- `strconv.Atoi` and `time.ParseDuration` of Go's standard library, which internal/config/config.go
-- calls. A `time.Duration` is a count of nanoseconds in an `int64`.
pub mod Rounds
use gcp_emulator_provisioner.Prelude.{
  ℕ, zero, suc, ◌+◌, ◌-◌, ◌*◌, ◌/◌, ◌%◌, ◌^◌, Bool, true, false, not, ◌&&◌, ◌||◌, Option, none,
  some, [], ◌∷◌, Text, codes, ◌==◌, is_empty, ltb, leb, nat_eq, length, if◌then◌else◌,
}
use gcp_emulator_provisioner.Prelude.Int.{ℤ, pos, neg_of}

abbrev pub Duration : Type 0
Duration = ℤ

abbrev pub second : ℕ
second = 1_000_000_000

abbrev pub minute : ℕ
minute = 60 * second

abbrev pub hour : ℕ
hour = 60 * minute

-- Go's `time.ParseDuration` multiplies a fraction in floating point:
-- `uint64(float64(f) * (float64(unit) / scale))`, where `scale` is 10 multiplied `digits` times.
-- The rounding is not modelled, so the function `f unit digits` is an argument.
abbrev pub Fraction : Type 0
Fraction = ℕ → ℕ → ℕ → ℕ

abbrev pub is_digit : ℕ → Bool
is_digit c = leb b'0' c && leb c b'9'

-- The decimal number of a text of digits, whatever its size.
unfoldable pub decimal : Text → ℕ → Option ℕ
decimal [] n = some n
decimal (c ∷ s) n = if is_digit c then decimal s (n * 10 + (c - b'0')) else none

abbrev within_int64 : Bool → ℕ → Option ℤ
within_int64 true n = if leb n (2 ^ 63) then some (neg_of n) else none
within_int64 false n = if ltb n (2 ^ 63) then some (pos n) else none

unsigned : Bool → Text → Option ℤ
unsigned neg [] = none
unsigned neg (c ∷ s) = elim (decimal (c ∷ s) 0) [ none ↦ none | some n ↦ within_int64 neg n ]

-- `strconv.Atoi`, with `none` for an error
unfoldable pub atoi : Text → Option ℤ
unfolding unsigned decimal
atoi [] = none
atoi (c ∷ s) =
    if nat_eq c b'-'
    then unsigned true s
    else if nat_eq c b'+'
    then unsigned false s
    else unsigned false (c ∷ s)

-- `leadingInt` of package time
leading_int : Text → ℕ → Option (ℕ × Text)
leading_int [] x = some (x, [])
leading_int (c ∷ s) x =
    let y = x * 10 + (c - b'0') in
    let rest = leading_int s y in
    if is_digit c
    then if ltb (2 ^ 63 / 10) x then none else if ltb (2 ^ 63) y then none else rest
    else some (x, c ∷ s)

-- `leadingFraction` of package time: the fraction, the number of its digits that count, the rest
leading_fraction : Text → ℕ → ℕ → Bool → ℕ × ℕ × Text
leading_fraction [] x digits over = (x, digits, [])
leading_fraction (c ∷ s) x digits over =
    let y = x * 10 + (c - b'0') in
    let stop = over || ltb ((2 ^ 63 - 1) / 10) x || ltb (2 ^ 63) y in
    let rest =
      leading_fraction s (if stop then x else y) (if stop then digits else suc digits) stop in
    if is_digit c then rest else (x, digits, c ∷ s)

-- The unit is all that stands before the next digit or point.
span_unit : Text → Text × Text
span_unit [] = ([], [])
span_unit (c ∷ s) =
    let (u, rest) = span_unit s in
    if nat_eq c b'.' || is_digit c then ([], c ∷ s) else (c ∷ u, rest)

-- `unitMap` of package time, in nanoseconds; a micro sign has two spellings in UTF-8
unit_nanos : Text → Option ℕ
unit_nanos u =
    if u == codes "ns"
    then some 1
    else if u == codes "us" || u == 0xc2 ∷ 0xb5 ∷ b's' ∷ [] || u == 0xce ∷ 0xbc ∷ b's' ∷ []
    then some 1000
    else if u == codes "ms"
    then some 1_000_000
    else if u == codes "s"
    then some second
    else if u == codes "m"
    then some minute
    else if u == codes "h"
    then some hour
    else none

-- The integer part, whether it has digits, the fraction, its digits, and what follows the number.
abbrev Number : Type 0
Number = record { whole : ℕ; digits_seen : Bool; fraction : ℕ; places : ℕ; rest : Text }

after_point : Text → Text → ℕ → Number
unfolding leading_fraction
after_point before (c ∷ s) v =
    let pre = ltb (length (c ∷ s)) (length before) in
    if nat_eq c b'.'
    then (let (f, k, rest) = leading_fraction s 0 0 false in
        record {
          whole = v;
          digits_seen = pre || ltb (length rest) (length s);
          fraction = f;
          places = k;
          rest = rest;
        })
    else record { whole = v; digits_seen = pre; fraction = 0; places = 0; rest = c ∷ s }
after_point before [] v = record {
  whole = v;
  digits_seen = ltb 0 (length before);
  fraction = 0;
  places = 0;
  rest = [];
}

read_number : Text → Option Number
unfolding leading_int after_point
read_number s = elim (leading_int s 0) [
  | none ↦ none
  | some (v, rest) ↦ some (after_point s rest v)
]

starts_number : Text → Bool
starts_number [] = false
starts_number (c ∷ s) = nat_eq c b'.' || is_digit c

module _ (fr : Fraction) where
  -- The nanoseconds of one number and its unit, added to those before it, in `uint64`.
  add_part : ℕ → ℕ → Number → Option ℕ
  add_part d unit n =
      let v = n.whole * unit in
      let v' = if ltb 0 n.fraction then (v + fr n.fraction unit n.places) % 2 ^ 64 else v in
      let d' = (d + v') % 2 ^ 64 in
      if ltb (2 ^ 63 / unit) n.whole
      then none
      else if ltb 0 n.fraction && ltb (2 ^ 63) v'
      then none
      else if ltb (2 ^ 63) d'
      then none
      else some d'

  -- One round of the loop: the new sum and the text that is left.
  parse_part : Text → ℕ → Option (ℕ × Text)
  unfolding read_number starts_number span_unit unit_nanos add_part
  parse_part s d =
      if starts_number s
      then (elim (read_number s) [
        | none ↦ none
        | some n ↦
            let (u, rest) = span_unit n.rest in
            if n.digits_seen && not (is_empty u)
            then (elim (unit_nanos u) [
              | none ↦ none
              | some unit ↦ elim (add_part d unit n) [ none ↦ none | some d' ↦ some (d', rest) ]
            ])
            else none
      ])
      else none

  -- The loop `for s != ""`. Every round takes a unit off the text, so its length is enough fuel.
  parse_parts : ℕ → Text → ℕ → Option ℕ
  unfolding parse_part
  parse_parts fuel [] d = some d
  parse_parts zero (c ∷ s) d = none
  parse_parts (suc fuel) (c ∷ s) d = elim (parse_part (c ∷ s) d) [
    | none ↦ none
    | some (d', rest) ↦ parse_parts fuel rest d'
  ]

  with_sign : Bool → Option ℕ → Option Duration
  with_sign neg none = none
  with_sign true (some d) = some (neg_of d)
  with_sign false (some d) = if ltb (2 ^ 63 - 1) d then none else some (pos d)

  after_sign : Bool → Text → Option Duration
  unfolding parse_parts with_sign
  after_sign neg s =
      if s == codes "0"
      then some (pos 0)
      else if is_empty s
      then none
      else with_sign neg (parse_parts (length s) s 0)

  -- `time.ParseDuration`, with `none` for an error
  unfoldable pub time_parse_duration : Text → Option Duration
  unfolding after_sign
  time_parse_duration [] = after_sign false []
  time_parse_duration (c ∷ s) =
      if nat_eq c b'-' || nat_eq c b'+'
      then after_sign (nat_eq c b'-') s
      else after_sign false (c ∷ s)
