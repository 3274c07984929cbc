-- ===== src/Provisioner/DryRun.antt =====
-- Dry runs of internal/provisioner: what the read-only calls promise, and why nothing else is called.
pub mod Sections
use gcp_emulator_provisioner.Prelude.{◌≡◌, Bool, true, false, Text}
use gcp_emulator_provisioner.Credentials.{System}
use gcp_emulator_provisioner.Provisioner.Admin.{PubSubAdmin, StorageAdmin}
use gcp_emulator_provisioner.Provisioner.Frame.{Frame}

-- What the read-only calls of the endpoints promise
pub record ReadsOnly {W : Type 0} (pubsub : PubSubAdmin W) (storage : StorageAdmin W)
    (sys : System W) : Type 0 where
  pub get_topic : (n : Text) (w : W) → (pubsub.get_topic n w).1 ≡ w
  pub get_subscription : (n : Text) (w : W) → (pubsub.get_subscription n w).1 ≡ w
  pub get_bucket : (n : Text) (w : W) → (storage.get_bucket n w).1 ≡ w
  pub stat : (p : Text) (w : W) → (sys.stat p w).1 ≡ w

-- Under a dry run the world itself is kept.
pub ReadsOnly-Frame :
    {W : Type 0} (dry : Bool) (pubsub : PubSubAdmin W) (storage : StorageAdmin W) (sys : System W)
    → ReadsOnly pubsub storage sys
    → dry ≡ true
    → Frame (λ (w : W). w) dry pubsub storage sys
ReadsOnly-Frame dry pubsub storage sys reads h = record {
  on_pubsub = record {
    get_topic = reads.get_topic;
    get_subscription = reads.get_subscription;
    create_topic = λ applied. absurd (cc (h, applied));
    update_topic = λ applied. absurd (cc (h, applied));
    create_subscription = λ applied. absurd (cc (h, applied));
    update_subscription = λ applied. absurd (cc (h, applied));
  };
  on_storage = record {
    get_bucket = reads.get_bucket;
    create_bucket = λ applied. absurd (cc (h, applied));
    set_versioning = λ applied. absurd (cc (h, applied));
  };
  on_system = record {
    stat = reads.stat;
    make_directories = λ applied. absurd (cc (h, applied));
    write_file = λ applied. absurd (cc (h, applied));
    generate_key = λ applied. absurd (cc (h, applied));
  };
}
