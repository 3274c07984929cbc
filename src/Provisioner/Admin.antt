-- ===== src/Provisioner/Admin.antt =====
-- The interfaces `PubSubAdmin` and `StorageAdmin`, the options and the constants of
-- internal/provisioner/provisioner.go. What stands behind an interface keeps a state of its own.
use gcp_emulator_provisioner.Prelude.{Bool, false, List, Text}
use gcp_emulator_provisioner.Client.Resources.{Topic, Subscription, Bucket, FieldPath}
pub use gcp_emulator_provisioner.Client.Errors.{Method}

pub record Options : Type 0 where
  pub dry_run : Bool
  pub compare_create_only_bucket_attrs : Bool

abbrev pub default_options : Options
default_options = record { dry_run = false; compare_create_only_bucket_attrs = false }

pub record PubSubAdmin (W : Type 0) : Type 0 where
  pub get_topic : Text → Method W Topic
  pub create_topic : Topic → Method W (Unit {0})
  pub update_topic : Topic → List FieldPath → Method W (Unit {0})
  pub get_subscription : Text → Method W Subscription
  pub create_subscription : Subscription → Method W (Unit {0})
  pub update_subscription : Subscription → List FieldPath → Method W (Unit {0})

pub record StorageAdmin (W : Type 0) : Type 0 where
  pub get_bucket : Text → Method W Bucket
  pub create_bucket : Bucket → Method W (Unit {0})
  pub set_versioning : Text → Bool → Method W (Unit {0})
