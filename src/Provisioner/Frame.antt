-- ===== src/Provisioner/Frame.antt =====
-- What a run of internal/provisioner leaves as it was: a view of the world that the calls keep, the
-- rule for a sequence of actions, and the calls of the service that a run makes.
pub mod Updates
pub mod Handlers
pub mod Sections
use gcp_emulator_provisioner.Prelude.{◌≡◌, refl, ◌∙◌, Bool, false, ok, err, Result, Text, List, ℕ}
use gcp_emulator_provisioner.Client.Resources.{Topic, Subscription, Bucket, FieldPath}
use gcp_emulator_provisioner.Client.Errors.{Error}
use gcp_emulator_provisioner.Credentials.{System}
use gcp_emulator_provisioner.Provisioner.Effects.{Act, Run, continue, ◌>>=◌}
use gcp_emulator_provisioner.Provisioner.Admin.{Method, PubSubAdmin, StorageAdmin}

module _ {W V : Type 0} (view : W → V) where
  -- An action after which the view is as it was, whatever the log and the result
  abbrev pub Keeps : {A : Type 0} → Act W A → Type 0
  Keeps m = (s : Run W) → view (m s).1.world ≡ view s.world

  -- A call after which the view is as it was
  abbrev pub Still : {A : Type 0} → Method W A → Type 0
  Still f = (w : W) → view (f w).1 ≡ view w

  module _ {A B : Type 0} where
    continue-Keeps :
        (r : Result Error A) (f : A → Act W B) (s : Run W)
        → ((a : A) → Keeps (f a))
        → view (continue r f s).1.world ≡ view s.world
    continue-Keeps (ok a) f s hf = hf a s
    continue-Keeps (err e) f s hf = refl

    pub bind-Keeps :
        (m : Act W A) (f : A → Act W B) → Keeps m → ((a : A) → Keeps (f a)) → Keeps (m >>= f)
    bind-Keeps m f hm hf s = continue-Keeps (m s).0 f (m s).1 hf ∙ hm s

  -- The reads keep the view, and where a run is no dry run, so do the calls that change something.
  pub record PubSubFrame (dry : Bool) (pubsub : PubSubAdmin W) : Type 0 where
    pub get_topic : (n : Text) → Still (pubsub.get_topic n)
    pub get_subscription : (n : Text) → Still (pubsub.get_subscription n)
    pub create_topic : dry ≡ false → (t : Topic) → Still (pubsub.create_topic t)
    pub update_topic :
        dry ≡ false → (t : Topic) (mask : List FieldPath) → Still (pubsub.update_topic t mask)
    pub create_subscription :
        dry ≡ false → (d : Subscription) → Still (pubsub.create_subscription d)
    pub update_subscription :
        dry ≡ false
        → (d : Subscription) (mask : List FieldPath) → Still (pubsub.update_subscription d mask)

  pub record StorageFrame (dry : Bool) (storage : StorageAdmin W) : Type 0 where
    pub get_bucket : (n : Text) → Still (storage.get_bucket n)
    pub create_bucket : dry ≡ false → (b : Bucket) → Still (storage.create_bucket b)
    pub set_versioning : dry ≡ false → (n : Text) (v : Bool) → Still (storage.set_versioning n v)

  pub record SystemFrame (dry : Bool) (sys : System W) : Type 0 where
    pub stat : (p : Text) → Still (sys.stat p)
    pub make_directories : dry ≡ false → (p : Text) (mode : ℕ) → Still (sys.make_directories p mode)
    pub write_file :
        dry ≡ false → (p content : Text) (mode : ℕ) → Still (sys.write_file p content mode)
    pub generate_key : dry ≡ false → (bits : ℕ) → Still (sys.generate_key bits)

  pub record Frame (dry : Bool) (pubsub : PubSubAdmin W) (storage : StorageAdmin W) (sys : System W)
      : Type 0 where
    pub on_pubsub : PubSubFrame dry pubsub
    pub on_storage : StorageFrame dry storage
    pub on_system : SystemFrame dry sys
