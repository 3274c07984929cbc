-- ===== src/Config/Validate/Settings.antt =====
-- What the settings of a subscription have that internal/config/config.go accepts.
use gcp_emulator_provisioner.Prelude.{
  ◌≡◌, ◌⊎◌, inl, inr, ◌&&◌, ◌||◌, not, true, false, Bool-cases, Option-cases, Option, none, some,
  [], ◌∷◌, arith, Text, Dict, is_empty, ok, reject, reject-eq-ok, >>-eq-ok, >>=-eq-ok, All, ◌==◌,
}
use gcp_emulator_provisioner.Prelude.Int.{pos, ◌≤ℤ◌, ltb_ℤ, eq_ℤ, eq_ℤ-eq}
use gcp_emulator_provisioner.Config.Schema.{Subscription, PushOidcToken, DeadLetter, Retry}
use gcp_emulator_provisioner.Config.GoTime.{Duration}
use gcp_emulator_provisioner.Config.Duration.{parse_duration}
use gcp_emulator_provisioner.Config.Names.{contains_null_byte}
use gcp_emulator_provisioner.Config.Problem.{Location}
use gcp_emulator_provisioner.Config.Validate.Fields.{
  ◌▸◌, parsed, validate_labels, validate_duration_range, min_message_retention,
  max_message_retention, max_retry_backoff, min_expiration_ttl, max_expiration_ttl,
}
use gcp_emulator_provisioner.Config.Validate.Subscriptions.{
  no_entries, expiration_never, push_wrapper_none, valid_push_wrapper, validate_oidc_token,
  validate_push, validate_dead_letter, validate_ack_deadline, validate_retry,
  validate_expiration_ttl, validate_settings,
}
use gcp_emulator_provisioner.Config.Validate.Ranges.{
  Within, WholeSeconds, validate_duration_range_iff, validate_ack_deadline_sound,
}
use gcp_emulator_provisioner.Runtime.{Runtime}

-- No key and no value has a null byte.
abbrev pub NoNullBytes : Dict → Type 0
NoNullBytes d = All (λ (k, v). (contains_null_byte k ≡ false) × (contains_null_byte v ≡ false)) d

pub validate_labels-NoNullBytes :
    (at : Location) (d : Dict) → validate_labels at d ≡ ok tt → NoNullBytes d
unfolding validate_labels
validate_labels-NoNullBytes at [] h = tt
validate_labels-NoNullBytes at ((k, v) ∷ d) h =
    let (clean, rest) =
      >>-eq-ok (reject (contains_null_byte k || contains_null_byte v) _) (validate_labels at d) h in
    ((ground arith, ground arith), validate_labels-NoNullBytes at d rest)

-- A token needs an endpoint to push to and an account.
abbrev pub IsToken : Text → Option PushOidcToken → Type 0
IsToken endpoint none = Unit
IsToken endpoint (some t) =
    (is_empty endpoint ≡ false)
    × (is_empty t.service_account_email ≡ false)
    × (contains_null_byte t.service_account_email ≡ false)
    × (contains_null_byte t.audience ≡ false)

validate_oidc_token-IsToken :
    (at : Location) (endpoint : Text) (o : Option PushOidcToken)
    → validate_oidc_token at endpoint o ≡ ok tt
    → IsToken endpoint o
unfolding validate_oidc_token
validate_oidc_token-IsToken at endpoint none h = tt
validate_oidc_token-IsToken at endpoint (some t) h =
    (ground arith, ground arith, ground arith, ground arith)

-- A dead letter block names its topic, and its attempts are left out or 5 to 100.
abbrev pub IsDeadLetter : Option DeadLetter → Type 0
IsDeadLetter none = Unit
IsDeadLetter (some dl) =
    (is_empty dl.topic ≡ false)
    × (contains_null_byte dl.topic ≡ false)
    × ((dl.max_delivery_attempts ≡ pos 0)
        ⊎ ((pos 5 ≤ℤ dl.max_delivery_attempts) × (dl.max_delivery_attempts ≤ℤ pos 100)))

validate_dead_letter-IsDeadLetter :
    (at : Location) (o : Option DeadLetter) → validate_dead_letter at o ≡ ok tt → IsDeadLetter o
unfolding validate_dead_letter
validate_dead_letter-IsDeadLetter at none h = tt
validate_dead_letter-IsDeadLetter at (some dl) h = (
  ground arith,
  ground arith,
  (elim (Bool-cases (eq_ℤ dl.max_delivery_attempts (pos 0))) [
    | inl zero ↦ inl (eq_ℤ-eq dl.max_delivery_attempts (pos 0) zero)
    | inr set ↦ inr (ground arith, ground arith)
  ]),
)

-- A push configuration: its wrapper is a known one, it stands only beside an endpoint, and metadata
-- are written only without a wrapper.
pub record IsPush (s : Subscription) : Type 0 where
  pub no_null : contains_null_byte s.push_wrapper ≡ false
  pub wrapper : valid_push_wrapper s.push_wrapper ≡ true
  pub pulled : is_empty s.push_endpoint ≡ true → is_empty s.push_wrapper ≡ true
  pub metadata : s.push_write_metadata ≡ true → s.push_wrapper ≡ push_wrapper_none
  pub token : IsToken s.push_endpoint s.push_oidc_token

validate_push-IsPush : (at : Location) (s : Subscription) → validate_push at s ≡ ok tt → IsPush s
unfolding validate_push
validate_push-IsPush at s h = record {
  no_null = ground arith;
  wrapper = ground arith;
  pulled = λ e. ground arith;
  metadata = λ e. ground arith;
  token =
      validate_oidc_token-IsToken (at ▸ "push_oidc_token") s.push_endpoint s.push_oidc_token
        (ground arith);
}

module _ (rt : Runtime) where
  parsed-parse_duration :
      (at : Location) (value : Text) (d : Duration)
      → parsed rt at value ≡ ok d
      → parse_duration rt.fraction value ≡ some d
  unfolding parsed
  parsed-parse_duration at value d h = elim (Option-cases (parse_duration rt.fraction value)) [
    | inl e ↦ absurd (ground arith)
    | inr (n, e) ↦ ground arith
  ]

  -- Both backoffs of a retry block lie in their range, and they are in order where both are set.
  abbrev pub IsRetry : Option Retry → Type 0
  IsRetry none = Unit
  IsRetry (some r) =
      Within rt r.minimum_backoff (pos 0) max_retry_backoff
      × Within rt r.maximum_backoff (pos 0) max_retry_backoff
      × ((low : Duration) × (high : Duration) × (parse_duration rt.fraction r.minimum_backoff
            ≡ some low)
          × (parse_duration rt.fraction r.maximum_backoff ≡ some high)
          × ((ltb_ℤ (pos 0) low && ltb_ℤ (pos 0) high && ltb_ℤ high low) ≡ false))

  validate_retry-IsRetry :
      (at : Location) (o : Option Retry) → validate_retry rt at o ≡ ok tt → IsRetry o
  unfolding validate_retry
  validate_retry-IsRetry at none h = tt
  validate_retry-IsRetry at (some r) h =
      let prefix = at ▸ "retry" in
      let (first, h1) =
        >>-eq-ok
          (validate_duration_range rt (prefix ▸ "minimum_backoff") r.minimum_backoff (pos 0)
            max_retry_backoff)
          _ h in
      let (second, h2) =
        >>-eq-ok
          (validate_duration_range rt (prefix ▸ "maximum_backoff") r.maximum_backoff (pos 0)
            max_retry_backoff)
          _ h1 in
      let (low, l, h3) =
        >>=-eq-ok (parsed rt (prefix ▸ "minimum_backoff") r.minimum_backoff) _ h2 in
      let (high, g, h4) =
        >>=-eq-ok (parsed rt (prefix ▸ "maximum_backoff") r.maximum_backoff) _ h3 in
      (
        (validate_duration_range_iff rt (prefix ▸ "minimum_backoff") r.minimum_backoff (pos 0)
              max_retry_backoff).0
            first,
        (validate_duration_range_iff rt (prefix ▸ "maximum_backoff") r.maximum_backoff (pos 0)
              max_retry_backoff).0
            second,
        (
          low,
          high,
          parsed-parse_duration (prefix ▸ "minimum_backoff") r.minimum_backoff low l,
          parsed-parse_duration (prefix ▸ "maximum_backoff") r.maximum_backoff high g,
          reject-eq-ok _ _ h4,
        ),
      )

  -- An expiration is left out, the word for none, or a duration in its range.
  abbrev pub IsExpiration : Text → Type 0
  IsExpiration value =
      ((is_empty value || value == expiration_never) ≡ true)
      ⊎ Within rt value min_expiration_ttl max_expiration_ttl

  validate_expiration_ttl-IsExpiration :
      (at : Location) (value : Text)
      → validate_expiration_ttl rt at value ≡ ok tt
      → IsExpiration value
  unfolding validate_expiration_ttl
  validate_expiration_ttl-IsExpiration at value h =
      elim (Bool-cases (is_empty value || value == expiration_never)) [
        | inl never ↦ inl never
        | inr timed ↦ inr (
            (validate_duration_range_iff rt (at ▸ "expiration_ttl") value min_expiration_ttl
                max_expiration_ttl).0
              (ground arith))
      ]

  pub record IsSettings (s : Subscription) : Type 0 where
    pub labels : NoNullBytes s.labels
    pub attributes : NoNullBytes s.push_attributes
    pub ack_deadline : (s.ack_deadline ≡ []) ⊎ WholeSeconds rt s.ack_deadline
    pub retention : Within rt s.message_retention min_message_retention max_message_retention
    pub expiration : IsExpiration s.expiration_ttl
    pub filter : contains_null_byte s.filter ≡ false
    pub endpoint : contains_null_byte s.push_endpoint ≡ false
    pub pulled : is_empty s.push_endpoint ≡ true → no_entries s.push_attributes ≡ true
    pub push : IsPush s
    pub dead_letter : IsDeadLetter s.dead_letter
    pub retry : IsRetry s.retry

  pub validate_settings-IsSettings :
      (at : Location) (s : Subscription) → validate_settings rt at s ≡ ok tt → IsSettings s
  unfolding validate_settings
  validate_settings-IsSettings at s h =
      let (labels, h1) = >>-eq-ok (validate_labels (at ▸ "labels") s.labels) _ h in
      let (attributes, h2) =
        >>-eq-ok (validate_labels (at ▸ "push_attributes") s.push_attributes) _ h1 in
      let (ack, h3) = >>-eq-ok (validate_ack_deadline rt at s.ack_deadline) _ h2 in
      let (retention, h4) =
        >>-eq-ok
          (validate_duration_range rt (at ▸ "message_retention") s.message_retention
            min_message_retention max_message_retention)
          _ h3 in
      let (expiration, h5) = >>-eq-ok (validate_expiration_ttl rt at s.expiration_ttl) _ h4 in
      let (filter, h6) = >>-eq-ok (reject (contains_null_byte s.filter) _) _ h5 in
      let (endpoint, h7) = >>-eq-ok (reject (contains_null_byte s.push_endpoint) _) _ h6 in
      let (pulled, h8) =
        >>-eq-ok (reject (is_empty s.push_endpoint && not (no_entries s.push_attributes)) _) _ h7 in
      let (push, h9) = >>-eq-ok (validate_push at s) _ h8 in
      let (dead, retry) = >>-eq-ok (validate_dead_letter at s.dead_letter) _ h9 in
      record {
        labels = validate_labels-NoNullBytes (at ▸ "labels") s.labels labels;
        attributes =
            validate_labels-NoNullBytes (at ▸ "push_attributes") s.push_attributes attributes;
        ack_deadline = validate_ack_deadline_sound rt at s.ack_deadline ack;
        retention =
            (validate_duration_range_iff rt (at ▸ "message_retention") s.message_retention
                min_message_retention max_message_retention).0
              retention;
        expiration = validate_expiration_ttl-IsExpiration at s.expiration_ttl expiration;
        filter = reject-eq-ok _ _ filter;
        endpoint = reject-eq-ok _ _ endpoint;
        pulled = λ e. ground (arith, reject-eq-ok _ _ pulled);
        push = validate_push-IsPush at s push;
        dead_letter = validate_dead_letter-IsDeadLetter at s.dead_letter dead;
        retry = validate_retry-IsRetry at s.retry retry;
      }
