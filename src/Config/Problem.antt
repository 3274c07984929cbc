-- ===== src/Config/Problem.antt =====
-- The errors of validation in internal/config/config.go: one constructor for each message, with
-- the values that the message quotes beyond its path, and the path that it begins with.
use gcp_emulator_provisioner.Prelude.{ℕ, String, List, Text}

-- A step of a path such as `pubsub.topics[0].name`
pub data Segment : Type 0 where
  field : String → Segment
  index : ℕ → Segment

abbrev pub Location : Type 0
Location = List Segment

pub data Problem : Type 0 where
  invalid_strategy : Text → Problem
  null_byte required : Problem
  label_null_byte : Text → Problem
  invalid_project_id : Text → Problem
  invalid_duration : Text → Problem
  negative_duration : Text → Problem
  out_of_range : Text → Problem
  fractional_seconds : Text → Problem
  invalid_name : Text → Problem
  reserved_name : Text → Problem
  duplicate : Text → Problem
  requires_push_endpoint : Problem
  invalid_push_wrapper : Text → Problem
  requires_no_wrapper : Problem
  attempts_out_of_range : Problem
  backoff_order : Text → Text → Problem
  undeclared_dead_letter : Text → Problem
  invalid_storage_class : Text → Problem
  invalid_account : Text → Problem
  invalid_url : Text → Problem
  relative_url : Text → Problem

pub record ConfigError : Type 0 where
  pub at : Location
  pub problem : Problem
