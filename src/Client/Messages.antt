-- ===== src/Client/Messages.antt =====
-- The fields that internal/client/pubsub.go sets and reads of the messages of package pubsubpb, and
-- what it calls of package durationpb. A pointer is an option. The type `D` stands for
-- `durationpb.Duration`, and the record Durations is that package with its documented laws.
use gcp_emulator_provisioner.Prelude.{◌≡◌, ℕ, ◌*◌, ◌^◌, ◌<◌, Bool, Option, none, some, Text, Dict}
use gcp_emulator_provisioner.Prelude.Int.{ℤ, pos}
use gcp_emulator_provisioner.Config.GoTime.{Duration, second}

pub record Durations (D : Type 0) : Type 0 where
  -- `durationpb.New`
  pub new : Duration → D
  -- the method `AsDuration`, which has an answer for `nil` as well
  pub as_duration : Option D → Duration
  -- `int32(d.Seconds())`, which goes through floating point
  pub whole_seconds : Duration → ℤ
  pub as_duration-none : as_duration none ≡ pos 0
  pub as_duration-new : (d : Duration) → as_duration (some (new d)) ≡ d
  pub whole_seconds-second : (k : ℕ) → k < 2 ^ 31 → whole_seconds (pos (k * second)) ≡ pos k

pub record TopicMessage (D : Type 0) : Type 0 where
  pub name : Text
  pub labels : Dict
  pub message_retention_duration : Option D

-- A policy with no TTL never expires.
pub record ExpirationPolicyMessage (D : Type 0) : Type 0 where
  pub ttl : Option D

pub record OidcTokenMessage : Type 0 where
  pub service_account_email : Text
  pub audience : Text

-- The alternatives of the oneof `wrapper`
pub data WrapperMessage : Type 0 where
  pubsub_wrapper : WrapperMessage
  no_wrapper : Bool → WrapperMessage

pub record PushConfigMessage : Type 0 where
  pub push_endpoint : Text
  pub attributes : Dict
  pub oidc_token : Option OidcTokenMessage
  pub wrapper : Option WrapperMessage

pub record DeadLetterPolicyMessage : Type 0 where
  pub dead_letter_topic : Text
  pub max_delivery_attempts : ℤ

pub record RetryPolicyMessage (D : Type 0) : Type 0 where
  pub minimum_backoff : Option D
  pub maximum_backoff : Option D

pub record SubscriptionMessage (D : Type 0) : Type 0 where
  pub name : Text
  pub topic : Text
  pub ack_deadline_seconds : ℤ
  pub message_retention_duration : Option D
  pub retain_acked_messages : Bool
  pub enable_message_ordering : Bool
  pub enable_exactly_once_delivery : Bool
  pub filter : Text
  pub expiration_policy : Option (ExpirationPolicyMessage D)
  pub labels : Dict
  pub push_config : Option PushConfigMessage
  pub dead_letter_policy : Option DeadLetterPolicyMessage
  pub retry_policy : Option (RetryPolicyMessage D)
