-- ===== src/Config/Validate/Subscriptions.antt =====
-- The checks of one topic's subscriptions in internal/config/config.go.
use gcp_emulator_provisioner.Prelude.{
  if◌then◌else◌, ℕ, suc, ◌%◌, Bool, true, false, not, ◌&&◌, ◌||◌, Option, none, some, List, [], ◌∷◌,
  ◌++◌, Text, Dict, codes, is_empty, nat_eq, ok, ◌>>=◌, ◌>>◌, reject, ◌==◌, has_prefix,
}
use gcp_emulator_provisioner.Prelude.Int.{pos, pos_part, neg_part, ltb_ℤ, eq_ℤ}
use gcp_emulator_provisioner.Config.Schema.{Subscription, DeadLetter, Retry, PushOidcToken}
use gcp_emulator_provisioner.Config.GoTime.{Duration, second}
use gcp_emulator_provisioner.Config.Names.{contains_null_byte, matches_resource_name}
use gcp_emulator_provisioner.Config.Problem.{
  Location, index, null_byte, required, fractional_seconds, invalid_name, reserved_name, duplicate,
  requires_push_endpoint, invalid_push_wrapper, requires_no_wrapper, attempts_out_of_range,
  backoff_order,
}
use gcp_emulator_provisioner.Config.Validate.Fields.{
  Checked, Check, problem_at, ◌▸◌, validate_strategy, min_ack_deadline, max_ack_deadline,
  min_message_retention, max_message_retention, max_retry_backoff, min_expiration_ttl,
  max_expiration_ttl, validate_labels, parsed, validate_duration_range,
}
use gcp_emulator_provisioner.Runtime.{Runtime}

abbrev pub push_wrapper_pubsub : Text
push_wrapper_pubsub = codes "pubsub"

abbrev pub push_wrapper_none : Text
push_wrapper_none = codes "none"

abbrev pub expiration_never : Text
expiration_never = codes "never"

-- A look-up in a `map[string]bool`
abbrev pub member : Text → List Text → Bool
member k [] = false
member k (x ∷ xs) = k == x || member k xs

-- `len(m) == 0`
abbrev pub no_entries : Dict → Bool
no_entries [] = true
no_entries (e ∷ d) = false

-- A look-up in the map `validPushWrappers`
unfoldable pub valid_push_wrapper : Text → Bool
valid_push_wrapper w = is_empty w || w == push_wrapper_pubsub || w == push_wrapper_none

unfoldable pub validate_oidc_token : Location → Text → Option PushOidcToken → Check
validate_oidc_token at endpoint none = ok tt
validate_oidc_token at endpoint (some t) = do
  reject (is_empty endpoint) (problem_at at requires_push_endpoint)
  reject (is_empty t.service_account_email) (problem_at (at ▸ "service_account_email") required)
  reject (contains_null_byte t.service_account_email)
      (problem_at (at ▸ "service_account_email") null_byte)
  reject (contains_null_byte t.audience) (problem_at (at ▸ "audience") null_byte)

unfoldable pub validate_push : Location → Subscription → Check
validate_push at s = do
  reject (contains_null_byte s.push_wrapper) (problem_at (at ▸ "push_wrapper") null_byte)
  reject (not (valid_push_wrapper s.push_wrapper))
      (problem_at (at ▸ "push_wrapper") (invalid_push_wrapper s.push_wrapper))
  reject (is_empty s.push_endpoint && not (is_empty s.push_wrapper))
      (problem_at (at ▸ "push_wrapper") requires_push_endpoint)
  reject (s.push_write_metadata && not (s.push_wrapper == push_wrapper_none))
      (problem_at (at ▸ "push_write_metadata") requires_no_wrapper)
  validate_oidc_token (at ▸ "push_oidc_token") s.push_endpoint s.push_oidc_token

unfoldable pub validate_dead_letter : Location → Option DeadLetter → Check
validate_dead_letter at none = ok tt
validate_dead_letter at (some dl) = do
  let prefix = at ▸ "dead_letter"
  reject (is_empty dl.topic) (problem_at (prefix ▸ "topic") required)
  reject (contains_null_byte dl.topic) (problem_at (prefix ▸ "topic") null_byte)
  reject
      (not (eq_ℤ dl.max_delivery_attempts (pos 0))
        && (ltb_ℤ dl.max_delivery_attempts (pos 5) || ltb_ℤ (pos 100) dl.max_delivery_attempts))
      (problem_at (prefix ▸ "max_delivery_attempts") attempts_out_of_range)

-- `d%time.Second != 0`: the remainder is 0 whatever its sign just if the size is a multiple.
abbrev pub is_fractional : Duration → Bool
is_fractional d = not (nat_eq ((pos_part d) % second) 0 && nat_eq ((neg_part d) % second) 0)

-- The checks of a name that topics and subscriptions share, against the names seen so far.
unfoldable pub validate_name : Location → Text → List Text → Check
validate_name at name seen = do
  reject (is_empty name) (problem_at at required)
  reject (contains_null_byte name) (problem_at at null_byte)
  reject (not (matches_resource_name name)) (problem_at at (invalid_name name))
  reject (has_prefix name (codes "goog")) (problem_at at (reserved_name name))
  reject (member name seen) (problem_at at (duplicate name))

module _ (rt : Runtime) where
  unfoldable pub validate_ack_deadline : Location → Text → Check
  validate_ack_deadline at [] =
      validate_duration_range rt (at ▸ "ack_deadline") [] min_ack_deadline max_ack_deadline
  validate_ack_deadline at (c ∷ s) = do
    let path = at ▸ "ack_deadline"
    validate_duration_range rt path (c ∷ s) min_ack_deadline max_ack_deadline
    d ← parsed rt path (c ∷ s)
    reject (is_fractional d) (problem_at path (fractional_seconds (c ∷ s)))

  unfoldable pub validate_retry : Location → Option Retry → Check
  validate_retry at none = ok tt
  validate_retry at (some r) = do
    let prefix = at ▸ "retry"
    validate_duration_range rt (prefix ▸ "minimum_backoff") r.minimum_backoff (pos 0)
        max_retry_backoff
    validate_duration_range rt (prefix ▸ "maximum_backoff") r.maximum_backoff (pos 0)
        max_retry_backoff
    low ← parsed rt (prefix ▸ "minimum_backoff") r.minimum_backoff
    high ← parsed rt (prefix ▸ "maximum_backoff") r.maximum_backoff
    reject (ltb_ℤ (pos 0) low && ltb_ℤ (pos 0) high && ltb_ℤ high low)
        (problem_at prefix (backoff_order r.minimum_backoff r.maximum_backoff))

  unfoldable pub validate_expiration_ttl : Location → Text → Check
  validate_expiration_ttl at value =
      if is_empty value || value == expiration_never
      then ok tt
      else validate_duration_range rt (at ▸ "expiration_ttl") value min_expiration_ttl
          max_expiration_ttl

  -- The body of the loop, after the name was added to `seen`
  unfoldable pub validate_settings : Location → Subscription → Check
  validate_settings at s = do
    validate_labels (at ▸ "labels") s.labels
    validate_labels (at ▸ "push_attributes") s.push_attributes
    validate_ack_deadline at s.ack_deadline
    validate_duration_range rt (at ▸ "message_retention") s.message_retention min_message_retention
        max_message_retention
    validate_expiration_ttl at s.expiration_ttl
    reject (contains_null_byte s.filter) (problem_at (at ▸ "filter") null_byte)
    reject (contains_null_byte s.push_endpoint) (problem_at (at ▸ "push_endpoint") null_byte)
    reject (is_empty s.push_endpoint && not (no_entries s.push_attributes))
        (problem_at (at ▸ "push_attributes") requires_push_endpoint)
    validate_push at s
    validate_dead_letter at s.dead_letter
    validate_retry at s.retry

  -- The loop from index `i` on; the result is the map `seen` as the loop leaves it.
  unfoldable pub validate_subscriptions_from :
      ℕ → Location → List Subscription → List Text → Checked (List Text)
  validate_subscriptions_from i at [] seen = ok seen
  validate_subscriptions_from i at (s ∷ subs) seen = do
    let prefix = (at ▸ "subscriptions") ++ (index i ∷ [])
    validate_strategy (prefix ▸ "strategy") s.strategy
    validate_name (prefix ▸ "name") s.name seen
    validate_settings prefix s
    validate_subscriptions_from (suc i) at subs (s.name ∷ seen)

  unfoldable pub validate_subscriptions :
      Location → List Subscription → List Text → Checked (List Text)
  validate_subscriptions at subs seen = validate_subscriptions_from 0 at subs seen
