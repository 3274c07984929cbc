-- ===== src/Config/Duration.antt =====
-- `ParseDuration` of internal/config/config.go.
pub mod Laws
use gcp_emulator_provisioner.Prelude.{
  Option, none, some, [], ◌∷◌, Text, is_empty, nat_eq, if◌then◌else◌,
}
use gcp_emulator_provisioner.Prelude.Int.{ℤ, pos, ◌*ℤ◌, to_int64}
use gcp_emulator_provisioner.Config.GoTime.{Duration, Fraction, hour, atoi, time_parse_duration}

-- `strings.TrimSuffix(s, "d")`, if the text ends in "d"
unfoldable pub trim_d : Text → Option Text
trim_d [] = none
trim_d (c ∷ []) = if nat_eq c b'd' then some [] else none
trim_d (c ∷ s) = elim (trim_d s) [ none ↦ none | some p ↦ some (c ∷ p) ]

-- `time.Duration(days) * 24 * time.Hour`, which wraps in `int64`
unfoldable pub days_duration : ℤ → Duration
days_duration days = to_int64 (to_int64 (days *ℤ pos 24) *ℤ pos hour)

unfoldable pub parse_duration : Fraction → Text → Option Duration
unfolding time_parse_duration trim_d days_duration atoi
parse_duration fr s = if is_empty s then some (pos 0) else (elim (trim_d s) [
  | none ↦ time_parse_duration fr s
  | some prefix ↦ elim (atoi prefix) [
    | some days ↦ some (days_duration days)
    | none ↦ time_parse_duration fr s
  ]
])
