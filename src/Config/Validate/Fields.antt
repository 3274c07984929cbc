-- ===== src/Config/Validate/Fields.antt =====
-- The checks of single fields in internal/config/config.go: strategies, durations and labels.
use gcp_emulator_provisioner.Prelude.{
  ◌*◌, not, ◌||◌, none, some, [], ◌∷◌, ◌++◌, Text, Dict, String, Result, ok, err, ◌>>=◌, ◌>>◌,
  reject,
}
use gcp_emulator_provisioner.Prelude.Int.{pos, ltb_ℤ}
use gcp_emulator_provisioner.Config.Strategy.{valid_strategy}
use gcp_emulator_provisioner.Config.GoTime.{Duration, second, minute, hour}
use gcp_emulator_provisioner.Config.Duration.{parse_duration}
use gcp_emulator_provisioner.Config.Names.{contains_null_byte}
use gcp_emulator_provisioner.Config.Problem.{
  Location, field, Problem, ConfigError, invalid_strategy, null_byte, label_null_byte,
  invalid_duration, negative_duration, out_of_range,
}
use gcp_emulator_provisioner.Runtime.{Runtime}

abbrev pub Checked : Type 0 → Type 0
Checked A = Result ConfigError A

abbrev pub Check : Type 0
Check = Checked (Unit {0})

abbrev pub problem_at : Location → Problem → ConfigError
problem_at at p = record { at = at; problem = p }

-- `prefix + ".name"`
infixl 60 ◌▸◌
abbrev pub ◌▸◌ : Location → String → Location
at ▸ name = at ++ (field name ∷ [])

unfoldable pub validate_strategy : Location → Text → Check
validate_strategy at value =
    reject (not (valid_strategy value)) (problem_at at (invalid_strategy value))

abbrev pub min_ack_deadline : Duration
min_ack_deadline = pos (10 * second)

abbrev pub max_ack_deadline : Duration
max_ack_deadline = pos (600 * second)

abbrev pub min_message_retention : Duration
min_message_retention = pos (10 * minute)

abbrev pub max_message_retention : Duration
max_message_retention = pos (31 * 24 * hour)

abbrev pub max_retry_backoff : Duration
max_retry_backoff = pos (600 * second)

abbrev pub min_expiration_ttl : Duration
min_expiration_ttl = pos (24 * hour)

abbrev pub max_expiration_ttl : Duration
max_expiration_ttl = pos (365 * 24 * hour)

unfoldable pub validate_labels : Location → Dict → Check
validate_labels at [] = ok tt
validate_labels at ((k, v) ∷ labels) = do
  reject (contains_null_byte k || contains_null_byte v) (problem_at at (label_null_byte k))
  validate_labels at labels

module _ (rt : Runtime) where
  -- A duration that `ParseDuration` accepts, or the error for the one that it refuses.
  unfoldable pub parsed : Location → Text → Checked Duration
  parsed at value = elim (parse_duration rt.fraction value) [
    | none ↦ err (problem_at at (invalid_duration value))
    | some d ↦ ok d
  ]

  unfoldable pub validate_duration : Location → Text → Check
  validate_duration at [] = ok tt
  validate_duration at (c ∷ s) = do
    reject (contains_null_byte (c ∷ s)) (problem_at at null_byte)
    d ← parsed at (c ∷ s)
    reject (ltb_ℤ d (pos 0)) (problem_at at (negative_duration (c ∷ s)))

  unfoldable pub validate_duration_range : Location → Text → Duration → Duration → Check
  validate_duration_range at [] lo hi = validate_duration at []
  validate_duration_range at (c ∷ s) lo hi = do
    validate_duration at (c ∷ s)
    d ← parsed at (c ∷ s)
    reject (ltb_ℤ d lo || ltb_ℤ hi d) (problem_at at (out_of_range (c ∷ s)))
