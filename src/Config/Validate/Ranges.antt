-- ===== src/Config/Validate/Ranges.antt =====
-- Which durations validation accepts.
use gcp_emulator_provisioner.Prelude.{
  ℕ, ◌*◌, ◌/◌, ◌≤◌, ◌≡◌, refl, ◌∙◌, ap, ◌↔◌, ◌⊎◌, inl, inr, false, some, [], ◌∷◌, arith, Text, ok,
  >>-eq-ok, Option-cases,
}
use gcp_emulator_provisioner.Prelude.Int.{pos, negsuc, ◌≤ℤ◌}
use gcp_emulator_provisioner.Config.GoTime.{Duration, second}
use gcp_emulator_provisioner.Config.Duration.{parse_duration}
use gcp_emulator_provisioner.Config.Names.{contains_null_byte}
use gcp_emulator_provisioner.Config.Problem.{Location}
use gcp_emulator_provisioner.Config.Validate.Fields.{
  ◌▸◌, parsed, validate_duration, validate_duration_range, min_ack_deadline, max_ack_deadline,
}
use gcp_emulator_provisioner.Config.Validate.Subscriptions.{is_fractional, validate_ack_deadline}
use gcp_emulator_provisioner.Runtime.{Runtime}

module _ (rt : Runtime) where
  -- A duration that was left out, or one with no null byte that parses to a value in the range.
  abbrev pub Within : Text → Duration → Duration → Type 0
  Within value lo hi =
      (value ≡ [])
      ⊎ ((contains_null_byte value ≡ false)
          × ((d : Duration) × (parse_duration rt.fraction value ≡ some d)
              × (pos 0 ≤ℤ d)
              × (lo ≤ℤ d)
              × (d ≤ℤ hi)))

  range_sound :
      (at : Location) (value : Text) (lo hi : Duration)
      → validate_duration_range rt at value lo hi ≡ ok tt
      → Within value lo hi
  unfolding validate_duration_range validate_duration parsed
  range_sound at [] lo hi h = inl refl
  range_sound at (c ∷ s) lo hi h = elim (Option-cases (parse_duration rt.fraction (c ∷ s))) [
    | inl e ↦ absurd (ground arith)
    | inr (d, e) ↦ inr (ground arith, (d, e, ground arith, ground arith, ground arith))
  ]

  range_complete :
      (at : Location) (value : Text) (lo hi : Duration)
      → Within value lo hi
      → validate_duration_range rt at value lo hi ≡ ok tt
  unfolding validate_duration_range validate_duration parsed
  range_complete at [] lo hi h = refl
  range_complete at (c ∷ s) lo hi (inl e) = cc
  range_complete at (c ∷ s) lo hi (inr (n, (d, e, z, l, h))) = ground arith

  -- Validation accepts an optional duration exactly when it was left out, or has no null byte and
  -- parses to a value that is not negative and lies between the bounds, both included.
  pub validate_duration_range_iff :
      (at : Location) (value : Text) (lo hi : Duration)
      → (validate_duration_range rt at value lo hi ≡ ok tt) ↔ Within value lo hi
  validate_duration_range_iff at value lo hi =
      (range_sound at value lo hi, range_complete at value lo hi)

  abbrev pub WholeSeconds : Text → Type 0
  WholeSeconds value =
      (k : ℕ) × (parse_duration rt.fraction value ≡ some (pos (k * second))) × (10 ≤ k) × (k ≤ 600)

  whole :
      (value : Text)
      → Within value min_ack_deadline max_ack_deadline
      → ((d : Duration) → parse_duration rt.fraction value ≡ some d → is_fractional d ≡ false)
      → (value ≡ []) ⊎ WholeSeconds value
  whole value (inl e) f = inl e
  whole value (inr (n, (pos d, e, z, l, h))) f =
      let exact : d ≡ d / second * second = ground (arith, f (pos d) e) in
      inr (d / second, e ∙ ap (λ (t : ℕ). some (pos t)) exact, omega arith, omega arith)
  whole value (inr (n, (negsuc d, e, z, l, h))) f = absurd (omega arith)

  -- An acknowledgement deadline that validation accepts was left out, or is a whole number of
  -- seconds from 10 to 600.
  pub validate_ack_deadline_sound :
      (at : Location) (value : Text)
      → validate_ack_deadline rt at value ≡ ok tt
      → (value ≡ []) ⊎ WholeSeconds value
  unfolding validate_ack_deadline
  validate_ack_deadline_sound at [] h = inl refl
  validate_ack_deadline_sound at (c ∷ s) h =
      let (ranged, rest) =
        >>-eq-ok
          (validate_duration_range rt (at ▸ "ack_deadline") (c ∷ s) min_ack_deadline
            max_ack_deadline)
          _ h in
      whole (c ∷ s)
        (range_sound (at ▸ "ack_deadline") (c ∷ s) min_ack_deadline max_ack_deadline ranged)
        (λ d e. unfold parsed in ground arith)
