-- ===== src/Config/Tests.antt =====
-- Runs of the configuration's functions, and its theorems at concrete data.
use gcp_emulator_provisioner.Prelude.{
  ◌-◌, arith, inr, ◌*◌, ◌≤◌, ◌≡◌, ◌↔◌, refl, ◌⊎◌, true, false, none, some, [], ◌∷◌, ◌++◌, Option,
  Text, codes, text_dec, ok, all, insert, map,
}
use gcp_emulator_provisioner.Prelude.Int.{pos, negsuc, ◌*ℤ◌, to_int64}
use gcp_emulator_provisioner.Config.Schema.{Config}
use gcp_emulator_provisioner.Config.Strategy.{
  create, update, valid_strategy, effective_strategy, FirstOf, effective_strategy_cases,
}
use gcp_emulator_provisioner.Config.GoTime.{minute, hour}
use gcp_emulator_provisioner.Config.Duration.{parse_duration, days_duration, trim_d}
use gcp_emulator_provisioner.Config.Duration.Laws.{days_duration_exact}
use gcp_emulator_provisioner.Config.Names.{
  matches_resource_name, matches_bucket_name, matches_project_id, contains_null_byte,
}
use gcp_emulator_provisioner.Config.Expand.{
  expand_env_vars, expand_config, expand_topic, expand_subscription, expand_credential,
  expand_bucket, expand_map, expand_entries, expand_from, replacement,
}
use gcp_emulator_provisioner.Config.Expand.Texts.{texts, maps, flags, attempts}
use gcp_emulator_provisioner.Config.Expand.Maps.{lookups, last_values}
use gcp_emulator_provisioner.Config.Expand.Laws.{expand_env_vars-reference}
use gcp_emulator_provisioner.Config.Problem.{field}
use gcp_emulator_provisioner.Config.Validate.Fields.{
  validate_duration_range, min_message_retention, max_message_retention, validate_duration, parsed,
}
use gcp_emulator_provisioner.Config.Validate.Subscriptions.{validate_ack_deadline}
use gcp_emulator_provisioner.Config.Validate.Ranges.{
  Within, WholeSeconds, validate_duration_range_iff, validate_ack_deadline_sound,
}
use gcp_emulator_provisioner.Config.Validate.Resources.{validate}
use gcp_emulator_provisioner.Config.Validate.Accepted.{IsAccepted, validate_topics-IsAccepted}
use gcp_emulator_provisioner.Config.Load.{Sources, load, load-ok}
use gcp_emulator_provisioner.Samples.{
  rational, plain_runtime, orders, dead, shop, shop_topics_valid, shop_valid,
}

durations :
    (parse_duration rational (codes "7d") ≡ some (pos (7 * 24 * hour)))
    × (parse_duration rational (codes "-2d") ≡ some (negsuc (2 * 24 * hour - 1)))
    × (parse_duration rational (codes "1h30m") ≡ some (pos (90 * minute)))
    × (parse_duration rational (codes "1.5s") ≡ some (pos 1_500_000_000))
    × (parse_duration rational (codes "1.5d") ≡ none)
    × (parse_duration rational (codes "10") ≡ none)
    × (parse_duration rational (codes "") ≡ some (pos 0))
unfolding parse_duration text_dec ◌*ℤ◌ to_int64
durations = (refl, refl, refl, refl, refl, refl, refl)

names :
    (matches_resource_name (codes "orders.v1") ≡ true)
    × (matches_resource_name (codes "1orders") ≡ false)
    × (matches_bucket_name (codes "my-bucket-") ≡ false)
    × (matches_bucket_name (codes "abc") ≡ true)
    × (matches_project_id (codes "local-dev") ≡ true)
unfolding matches_resource_name matches_bucket_name matches_project_id
names = (refl, refl, refl, refl, refl)

-- A count of days past the range of the type comes back positive, and small.
wrapped_days : parse_duration rational (codes "213504d") ≡ some (pos 1_526_290_448_384)
unfolding parse_duration text_dec ◌*ℤ◌ to_int64
wrapped_days = refl

no_null : contains_null_byte (codes "213504d") ≡ false
unfolding contains_null_byte
no_null = refl

-- Validation takes it for a retention of 25 minutes.
wrapped_days_accepted :
    validate_duration_range plain_runtime []
      (codes "213504d")
      min_message_retention
      max_message_retention
    ≡ ok tt
wrapped_days_accepted =
    (validate_duration_range_iff plain_runtime [] (codes "213504d") min_message_retention
        max_message_retention).1
      (inr (no_null, (pos 1_526_290_448_384, wrapped_days, omega arith, omega arith, omega arith)))

all_valid : all valid_strategy (codes "" ∷ codes "create" ∷ []) ≡ true
unfolding valid_strategy text_dec
all_valid = refl

effective_strategy_cases_example :
    let s = effective_strategy (codes "" ∷ codes "create" ∷ []) in
    ((s ≡ create) ⊎ (s ≡ update)) × FirstOf (codes "" ∷ codes "create" ∷ []) s
effective_strategy_cases_example =
    effective_strategy_cases (codes "" ∷ codes "create" ∷ []) all_valid

days_duration_exact_example : (days_duration (pos 31) ≡ pos (31 * 24 * hour)) ↔ (31 ≤ 106_751)
days_duration_exact_example = days_duration_exact 31

validate_duration_range_iff_example :
    (validate_duration_range plain_runtime
        (field "strategy" ∷ [])
        (codes "1h")
        min_message_retention
        max_message_retention
      ≡ ok tt)
    ↔ Within plain_runtime (codes "1h") min_message_retention max_message_retention
validate_duration_range_iff_example =
    validate_duration_range_iff plain_runtime (field "strategy" ∷ []) (codes "1h")
      min_message_retention max_message_retention

ack_valid : validate_ack_deadline plain_runtime [] (codes "30s") ≡ ok tt
unfolding validate_ack_deadline validate_duration_range validate_duration parsed parse_duration
    trim_d contains_null_byte text_dec to_int64
ack_valid = refl

validate_ack_deadline_sound_example : (codes "30s" ≡ []) ⊎ WholeSeconds plain_runtime (codes "30s")
validate_ack_deadline_sound_example =
    validate_ack_deadline_sound plain_runtime [] (codes "30s") ack_valid

validate_topics-IsAccepted_example : IsAccepted plain_runtime (orders ∷ dead ∷ [])
validate_topics-IsAccepted_example =
    validate_topics-IsAccepted plain_runtime (orders ∷ dead ∷ []) shop_topics_valid

abbrev home : Text → Option Text
home n = some (codes "x${n}")

expand_env_vars-reference_example :
    expand_env_vars home (codes "a-" ++ codes "${" ++ codes "N" ++ b'}' ∷ codes "-b")
    ≡ codes "a-x${n}-b"
unfolding expand_env_vars expand_from replacement
expand_env_vars-reference_example =
    expand_env_vars-reference home (codes "a-") b'N' [] (codes "-b") refl refl

abbrev shop_sources : Sources
shop_sources = record { read_file = λ p. ok p; unmarshal = λ t. ok shop; lookup_env = λ n. none }

expanded : expand_config (λ n. none) shop ≡ shop
unfolding expand_config expand_topic expand_subscription expand_credential expand_bucket expand_map
    expand_entries insert expand_env_vars expand_from text_dec
expanded = refl

loaded : load plain_runtime shop_sources (codes "config.yaml") ≡ ok shop
unfolding load
loaded = rw (expanded, shop_valid) refl

load-ok_example :
    (content : Text) × (raw : Config) × (shop_sources.read_file (codes "config.yaml") ≡ ok content)
    × (shop_sources.unmarshal content ≡ ok raw)
    × (texts shop ≡ map (expand_env_vars shop_sources.lookup_env) (texts raw))
    × (lookups (maps shop) ≡ last_values shop_sources.lookup_env (maps raw))
    × (flags shop ≡ flags raw)
    × (attempts shop ≡ attempts raw)
    × (validate plain_runtime shop ≡ ok tt)
    × IsAccepted plain_runtime shop.pubsub.topics
load-ok_example = load-ok plain_runtime shop_sources (codes "config.yaml") shop loaded
