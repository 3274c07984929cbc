-- ===== src/Config/Schema.antt =====
-- The configuration types of internal/config/config.go, with the fields in the source's order.
-- A `*bool` or another pointer is an `Option`; a Go `int` is an integer in the range of `int64`.
use gcp_emulator_provisioner.Prelude.{Bool, Option, List, Text, Dict}
use gcp_emulator_provisioner.Prelude.Int.{ℤ}

pub record PushOidcToken : Type 0 where
  pub service_account_email : Text
  pub audience : Text

pub record DeadLetter : Type 0 where
  pub topic : Text
  pub max_delivery_attempts : ℤ

pub record Retry : Type 0 where
  pub minimum_backoff : Text
  pub maximum_backoff : Text

pub record Subscription : Type 0 where
  pub name : Text
  pub strategy : Text
  pub ack_deadline : Text
  pub message_retention : Text
  pub retain_acked_messages : Option Bool
  pub enable_message_ordering : Option Bool
  pub enable_exactly_once_delivery : Option Bool
  pub filter : Text
  pub expiration_ttl : Text
  pub labels : Dict
  pub push_endpoint : Text
  pub push_attributes : Dict
  pub push_oidc_token : Option PushOidcToken
  pub push_wrapper : Text
  pub push_write_metadata : Bool
  pub dead_letter : Option DeadLetter
  pub retry : Option Retry

pub record Topic : Type 0 where
  pub name : Text
  pub strategy : Text
  pub labels : Dict
  pub message_retention : Text
  pub subscriptions : List Subscription

pub record Bucket : Type 0 where
  pub name : Text
  pub strategy : Text
  pub versioning : Option Bool
  pub location : Text
  pub storage_class : Text

pub record Credential : Type 0 where
  pub path : Text
  pub strategy : Text
  pub account : Text
  pub token_uri : Text

pub record PubSub : Type 0 where
  pub topics : List Topic

pub record Storage : Type 0 where
  pub buckets : List Bucket

pub record Config : Type 0 where
  pub strategy : Text
  pub project_id : Text
  pub pubsub : PubSub
  pub storage : Storage
  pub credentials : List Credential
