-- ===== src/Provisioner/Validated.antt =====
-- From the checks of internal/config/config.go to the builders of internal/provisioner.
use gcp_emulator_provisioner.Prelude.{
  ◌≡◌, refl, ◌∙◌, ap, inl, inr, true, false, Option, none, some, [], arith, Text, ok, Result,
  >>-eq-ok, is_empty, ◌*◌, text_dec, ◌==◌, Bool-cases, reject, not, ◌&&◌,
}
use gcp_emulator_provisioner.Prelude.Int.{pos, negsuc, ◌≤ℤ◌}
use gcp_emulator_provisioner.Config.Schema
use gcp_emulator_provisioner.Config.GoTime.{Duration, second}
use gcp_emulator_provisioner.Config.Duration.{parse_duration}
use gcp_emulator_provisioner.Config.Problem.{Location, null_byte, requires_push_endpoint}
use gcp_emulator_provisioner.Config.Names.{contains_null_byte}
use gcp_emulator_provisioner.Config.Validate.Fields.{
  ◌▸◌, problem_at, validate_labels, validate_duration_range, min_message_retention,
  max_message_retention, max_retry_backoff, min_expiration_ttl, max_expiration_ttl,
}
use gcp_emulator_provisioner.Config.Validate.Subscriptions.{
  expiration_never, validate_ack_deadline, validate_expiration_ttl, validate_retry,
  validate_settings, no_entries, push_wrapper_none, validate_push, validate_dead_letter,
}
use gcp_emulator_provisioner.Config.Validate.Ranges.{
  validate_duration_range_iff, validate_ack_deadline_sound,
}
use gcp_emulator_provisioner.Config.Validate.Sound.{IsChecked, IsCheckedTopic}
use gcp_emulator_provisioner.Client.Resources.{Subscription, wrapper_none}
use gcp_emulator_provisioner.Client.Convert.Laws.{
  IsNonnegative, IsWholeSeconds, HasExpiration, HasWrapper, HasBackoffs, IsSendableTopic,
}
use gcp_emulator_provisioner.Client.Errors.{
  Error, Context, parsing_ack_deadline, parsing_message_retention,
}
use gcp_emulator_provisioner.Provisioner.Topics.{built_duration, build_topic}
use gcp_emulator_provisioner.Provisioner.Subscriptions.Build.{
  build_expiration, build_retry, build_push_config, build_wrapper, build_dead_letter,
  build_subscription,
}
use gcp_emulator_provisioner.Runtime.{Runtime}

-- The builder returns a value with a property.
abbrev pub Builds : {A : Type 0} → (A → Type 0) → Result Error A → Type 0
Builds {A} P r = (a : A) × (r ≡ ok a) × P a

-- What a message can hold of the fields that the builder reads from a subscription's settings
pub record HasFields (d : Subscription) : Type 0 where
  pub ack_deadline : IsWholeSeconds d.ack_deadline
  pub message_retention : IsNonnegative d.message_retention
  pub expiration : HasExpiration d.expiration_set d.expiration_ttl
  pub push : HasWrapper d.push
  pub retry : HasBackoffs d.retry

nonnegative : (d : Duration) → pos 0 ≤ℤ d → IsNonnegative d
nonnegative (pos n) h = (n, refl)
nonnegative (negsuc n) h = absurd (omega (arith, h))

push_wrapper_unwrapped :
    (w : Text) → (w == push_wrapper_none) ≡ true → build_wrapper w ≡ wrapper_none
unfolding build_wrapper text_dec
push_wrapper_unwrapped w h =
    let e : w ≡ push_wrapper_none = ground arith in ap build_wrapper e ∙ refl

push_HasWrapper :
    (at : Location) (s : Schema.Subscription)
    → validate_push at s ≡ ok tt
    → HasWrapper (build_push_config s)
unfolding validate_push build_push_config
push_HasWrapper at s h = elim (Bool-cases (is_empty s.push_endpoint)) [
  | inl p ↦ rw p tt
  | inr p ↦ rw p (λ w. push_wrapper_unwrapped s.push_wrapper (ground arith))
]

module _ (rt : Runtime) where
  abbrev Parses : (Duration → Type 0) → Text → Type 0
  Parses P value = (d : Duration) × (parse_duration rt.fraction value ≡ some d) × P d

  Parses-nil : (P : Duration → Type 0) (value : Text) → value ≡ [] → P (pos 0) → Parses P value
  Parses-nil P value e p =
      (pos 0, ap (parse_duration rt.fraction) e ∙ (unfold parse_duration in refl), p)

  range-Parses :
      (at : Location) (value : Text) (lo hi : Duration)
      → validate_duration_range rt at value lo hi ≡ ok tt
      → Parses IsNonnegative value
  range-Parses at value lo hi h = elim ((validate_duration_range_iff rt at value lo hi).0 h) [
    | inl e ↦ Parses-nil IsNonnegative value e (0, refl)
    | inr (n, (d, e, z, l, u)) ↦ (d, e, nonnegative d z)
  ]

  ack-Parses :
      (at : Location) (value : Text)
      → validate_ack_deadline rt at value ≡ ok tt
      → Parses IsWholeSeconds value
  ack-Parses at value h = elim (validate_ack_deadline_sound rt at value h) [
    | inl e ↦ Parses-nil IsWholeSeconds value e (0, omega arith, refl)
    | inr (k, e, l, u) ↦ (pos (k * second), e, (k, omega (arith, u), refl))
  ]

  built_duration-Builds :
      (P : Duration → Type 0) (c : Context) (value : Text)
      → Parses P value
      → Builds P (built_duration rt c value)
  unfolding built_duration
  built_duration-Builds P c value (d, e, p) = (d, ground arith, p)

  expiration-Builds :
      (at : Location) (value : Text)
      → validate_expiration_ttl rt at value ≡ ok tt
      → Builds (λ (set, ttl). HasExpiration set ttl) (build_expiration rt value)
  unfolding validate_expiration_ttl build_expiration
  expiration-Builds at value h = elim (Bool-cases (is_empty value)) [
    | inl none_set ↦ ((false, pos 0), rw none_set refl, refl)
    | inr set ↦ elim (Bool-cases (value == expiration_never)) [
      | inl never ↦ ((true, pos 0), rw (set, never) refl, (0, refl))
      | inr bounded ↦
          let (d, e, n) =
            range-Parses (at ▸ "expiration_ttl") value min_expiration_ttl max_expiration_ttl
              (rw (set, bounded) at h) in
          ((true, d), unfold built_duration in ground arith, n)
    ]
  ]

  retry-Builds :
      (at : Location) (r : Option Schema.Retry)
      → validate_retry rt at r ≡ ok tt
      → Builds HasBackoffs (build_retry rt r)
  unfolding validate_retry build_retry
  retry-Builds at none h = (none, refl, tt)
  retry-Builds at (some r) h =
      let prefix : Location = at ▸ "retry" in
      let (low, h1) =
        >>-eq-ok
          (validate_duration_range rt (prefix ▸ "minimum_backoff") r.minimum_backoff (pos 0)
            max_retry_backoff)
          _ h in
      let (high, h2) =
        >>-eq-ok
          (validate_duration_range rt (prefix ▸ "maximum_backoff") r.maximum_backoff (pos 0)
            max_retry_backoff)
          _ h1 in
      let (d, e, n) =
        range-Parses (prefix ▸ "minimum_backoff") r.minimum_backoff (pos 0) max_retry_backoff low in
      let (d', e', n') =
        range-Parses (prefix ▸ "maximum_backoff") r.maximum_backoff (pos 0) max_retry_backoff
          high in
      (
        some (record { minimum_backoff = d; maximum_backoff = d' }),
        unfold built_duration in ground arith,
        (n, n'),
      )

  -- The parts of the settings that the builder reads passed their checks.
  settings_parts :
      (at : Location) (s : Schema.Subscription)
      → validate_settings rt at s ≡ ok tt
      → Parses IsWholeSeconds s.ack_deadline
        × Parses IsNonnegative s.message_retention
        × Builds (λ (set, ttl). HasExpiration set ttl) (build_expiration rt s.expiration_ttl)
        × Builds HasBackoffs (build_retry rt s.retry)
        × HasWrapper (build_push_config s)
  unfolding validate_settings
  settings_parts at s h =
      let (_, h1) = >>-eq-ok (validate_labels (at ▸ "labels") s.labels) _ h in
      let (_, h2) = >>-eq-ok (validate_labels (at ▸ "push_attributes") s.push_attributes) _ h1 in
      let (ack, h3) = >>-eq-ok (validate_ack_deadline rt at s.ack_deadline) _ h2 in
      let (retention, h4) =
        >>-eq-ok
          (validate_duration_range rt (at ▸ "message_retention") s.message_retention
            min_message_retention max_message_retention)
          _ h3 in
      let (expiration, h5) = >>-eq-ok (validate_expiration_ttl rt at s.expiration_ttl) _ h4 in
      let (_, h6) =
        >>-eq-ok (reject (contains_null_byte s.filter) (problem_at (at ▸ "filter") null_byte)) _
          h5 in
      let (_, h7) =
        >>-eq-ok
          (reject (contains_null_byte s.push_endpoint)
            (problem_at (at ▸ "push_endpoint") null_byte))
          _ h6 in
      let (_, h8) =
        >>-eq-ok
          (reject (is_empty s.push_endpoint && not (no_entries s.push_attributes))
            (problem_at (at ▸ "push_attributes") requires_push_endpoint))
          _ h7 in
      let (push, h9) = >>-eq-ok (validate_push at s) _ h8 in
      let (_, retry) = >>-eq-ok (validate_dead_letter at s.dead_letter) _ h9 in
      (
        ack-Parses at s.ack_deadline ack,
        range-Parses (at ▸ "message_retention") s.message_retention min_message_retention
            max_message_retention retention,
        expiration-Builds at s.expiration_ttl expiration,
        retry-Builds at s.retry retry,
        push_HasWrapper at s push,
      )

  pub build_subscription-HasFields :
      (topic_name : Text) (s : Schema.Subscription)
      → IsChecked rt s
      → Builds HasFields (build_subscription rt topic_name s)
  unfolding build_subscription
  build_subscription-HasFields topic_name s h =
      let (ack, retention, (expiration, e, has), (retry, r, backoffs), wrapper) =
        settings_parts h.at s h.settings in
      let (d, a, whole) =
        built_duration-Builds IsWholeSeconds parsing_ack_deadline s.ack_deadline ack in
      let (d', b, n) =
        built_duration-Builds IsNonnegative parsing_message_retention s.message_retention
          retention in
      (
        record {
          name = s.name;
          topic = topic_name;
          ack_deadline = d;
          message_retention = d';
          retain_acked_messages = s.retain_acked_messages;
          enable_message_ordering = s.enable_message_ordering;
          enable_exactly_once_delivery = s.enable_exactly_once_delivery;
          filter = s.filter;
          expiration_set = expiration.0;
          expiration_ttl = expiration.1;
          labels = s.labels;
          push = build_push_config s;
          dead_letter = build_dead_letter s.dead_letter;
          retry = retry;
        },
        rw (a, b, e, r) refl,
        record {
          ack_deadline = whole;
          message_retention = n;
          expiration = has;
          push = wrapper;
          retry = backoffs;
        },
      )

  -- A subscription that passed validation is built without an error, on any topic.
  pub build_subscription-Builds :
      (topic_name : Text) (s : Schema.Subscription)
      → IsChecked rt s
      → (d : Subscription) × (build_subscription rt topic_name s ≡ ok d)
  build_subscription-Builds topic_name s h =
      let (d, built, fields) = build_subscription-HasFields topic_name s h in (d, built)

  pub build_topic-IsSendableTopic :
      (t : Schema.Topic) → IsCheckedTopic rt t → Builds IsSendableTopic (build_topic rt t)
  unfolding build_topic built_duration
  build_topic-IsSendableTopic t h =
      let (d, e, n) =
        range-Parses h.at t.message_retention min_message_retention max_message_retention
          h.retention in
      (
        record { name = t.name; labels = t.labels; message_retention = d },
        ground arith,
        record { name = h.name.matches; message_retention = n },
      )
