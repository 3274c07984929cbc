-- ===== src/Client/Resources.antt =====
-- The resources of internal/client/pubsub.go and internal/client/storage.go.
-- A pointer is an `Option`, and an `int32` an integer in its range.
use gcp_emulator_provisioner.Prelude.{Bool, false, Option, none, some, Text, Dict}
use gcp_emulator_provisioner.Prelude.Int.{ℤ}
use gcp_emulator_provisioner.Config.GoTime.{Duration}

pub record Topic : Type 0 where
  pub name : Text
  pub labels : Dict
  pub message_retention : Duration

pub record DeadLetterPolicy : Type 0 where
  pub topic : Text
  pub max_delivery_attempts : ℤ

pub record RetryPolicy : Type 0 where
  pub minimum_backoff : Duration
  pub maximum_backoff : Duration

pub data Wrapper : Type 0 where
  wrapper_unset wrapper_pubsub wrapper_none : Wrapper

pub record OidcToken : Type 0 where
  pub service_account_email : Text
  pub audience : Text

pub record PushConfig : Type 0 where
  pub endpoint : Text
  pub attributes : Dict
  pub oidc_token : Option OidcToken
  pub wrapper : Wrapper
  pub write_metadata : Bool

pub record Subscription : Type 0 where
  pub name : Text
  pub topic : Text
  pub ack_deadline : Duration
  pub message_retention : Duration
  pub retain_acked_messages : Option Bool
  pub enable_message_ordering : Option Bool
  pub enable_exactly_once_delivery : Option Bool
  pub filter : Text
  pub expiration_set : Bool
  pub expiration_ttl : Duration
  pub labels : Dict
  pub push : Option PushConfig
  pub dead_letter : Option DeadLetterPolicy
  pub retry : Option RetryPolicy

pub record Bucket : Type 0 where
  pub name : Text
  pub versioning_enabled : Bool
  pub location : Text
  pub storage_class : Text

-- `DerefBool`
abbrev pub deref_bool : Option Bool → Bool
deref_bool none = false
deref_bool (some b) = b

-- The field paths that an update mask may name: the constants of
-- internal/provisioner/topics.go and internal/provisioner/subscriptions.go.
pub data FieldPath : Type 0 where
  ack_deadline_seconds message_retention_duration retain_acked_messages : FieldPath
  enable_exactly_once_delivery expiration_policy labels push_config : FieldPath
  dead_letter_policy retry_policy : FieldPath

pub FieldPath-discrete : Discrete FieldPath
FieldPath-discrete = hlevel

-- `BoolPtr`
abbrev pub bool_ptr : Bool → Option Bool
bool_ptr b = some b
