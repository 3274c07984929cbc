-- ===== src/Client/Storage.antt =====
-- `StorageClient` and `ConnectStorage` of internal/client/storage.go. The client of package storage
-- is an interface; each of its calls gets the time after which its context expires.
pub mod Laws
mod Tests
use gcp_emulator_provisioner.Prelude.{
  ℕ, ◌*◌, Bool, true, ◌||◌, Option, none, some, List, [], ◌∷◌, Text, codes, Result, ok, err,
  contains_text, if◌then◌else◌,
}
use gcp_emulator_provisioner.Config.GoTime.{second}
use gcp_emulator_provisioner.Client.Resources.{Bucket}
use gcp_emulator_provisioner.Client.Errors.{
  Error, Method, missing_bucket, wrap, getting_bucket, creating_bucket, versioning_bucket,
  creating_storage_client, is_bucket_not_exist, has_conflict_code, message,
}
use gcp_emulator_provisioner.Client.Endpoint.{storage_endpoint}
use gcp_emulator_provisioner.Client.PubSub.{FirstPage}
use gcp_emulator_provisioner.Client.Connect.{
  ClientOption, with_endpoint, without_authentication, Clock, wait_until_ready,
}
use gcp_emulator_provisioner.Provisioner.Admin.{StorageAdmin}
use gcp_emulator_provisioner.Runtime.{Runtime}

abbrev pub operation_timeout : ℕ
operation_timeout = 30 * second

-- The fields of `storage.BucketAttrs` that the code sets and reads
pub record BucketAttrs : Type 0 where
  pub name : Text
  pub versioning_enabled : Bool
  pub location : Text
  pub storage_class : Text

pub record StorageApi (W : Type 0) : Type 0 where
  -- `Bucket(name).Attrs`
  pub attrs : ℕ → Text → Method W BucketAttrs
  -- `Bucket(name).Create` in a project
  pub create : ℕ → Text → Text → BucketAttrs → Method W (Unit {0})
  -- `Bucket(name).Update` with `VersioningEnabled` alone
  pub update_versioning : ℕ → Text → Bool → Method W (Unit {0})
  -- the first `Next` of `Buckets`, at a number of the attempt
  pub buckets : ℕ → Text → ℕ → W → FirstPage
  pub close : Method W (Unit {0})

pub record StorageClient (W : Type 0) : Type 0 where
  pub project_id : Text
  pub client : StorageApi W

-- `storage.NewClient`
pub record StorageLibrary (W : Type 0) : Type 0 where
  pub new_client : List ClientOption → Method W (StorageApi W)

unfoldable pub from_attrs : BucketAttrs → Bucket
from_attrs a = record {
  name = a.name;
  versioning_enabled = a.versioning_enabled;
  location = a.location;
  storage_class = a.storage_class;
}

-- The name of a bucket is no part of what a creation sends.
unfoldable pub to_attrs : Bucket → BucketAttrs
to_attrs b = record {
  name = [];
  versioning_enabled = b.versioning_enabled;
  location = b.location;
  storage_class = b.storage_class;
}

unfoldable pub bucket_answer : Text → Result Error BucketAttrs → Result Error Bucket
bucket_answer name (ok a) = ok (from_attrs a)
bucket_answer name (err e) =
    if is_bucket_not_exist e then err missing_bucket else err (wrap (getting_bucket name) e)

unfoldable pub versioning_answer : Text → Result Error (Unit {0}) → Result Error (Unit {0})
versioning_answer name (ok answered) = ok tt
versioning_answer name (err e) = err (wrap (versioning_bucket name) e)

module _ {W : Type 0} (c : StorageClient W) where
  unfoldable pub close : Method W (Unit {0})
  close = c.client.close

  unfoldable pub get_bucket : Text → Method W Bucket
  get_bucket name w =
      let (r, w') = c.client.attrs operation_timeout name w in (bucket_answer name r, w')

  unfoldable pub set_versioning : Text → Bool → Method W (Unit {0})
  set_versioning name enabled w =
      let (r, w') = c.client.update_versioning operation_timeout name enabled w in
      (versioning_answer name r, w')

module _ (rt : Runtime) where
  unfoldable pub is_bucket_exists_error : Error → Bool
  is_bucket_exists_error e =
      if has_conflict_code e
      then true
      else contains_text (message rt e) (codes "already exists")
        || contains_text (message rt e) (codes "409")

  unfoldable pub create_bucket_answer : Text → Result Error (Unit {0}) → Result Error (Unit {0})
  create_bucket_answer name (ok answered) = ok tt
  create_bucket_answer name (err e) =
      if is_bucket_exists_error e then ok tt else err (wrap (creating_bucket name) e)

  module _ {W : Type 0} (c : StorageClient W) where
    unfoldable pub create_bucket : Bucket → Method W (Unit {0})
    create_bucket b w =
        let (r, w') = c.client.create operation_timeout b.name c.project_id (to_attrs b) w in
        (create_bucket_answer b.name r, w')

    -- The client as the interface of the provisioner
    unfoldable pub admin : StorageAdmin W
    unfolding get_bucket create_bucket set_versioning
    admin = record {
      get_bucket = get_bucket c;
      create_bucket = create_bucket;
      set_versioning = set_versioning c;
    }

unfoldable pub storage_client_options : Text → List ClientOption
storage_client_options [] = []
storage_client_options (c ∷ host) =
    with_endpoint (storage_endpoint (c ∷ host)) ∷ without_authentication ∷ []

module _ {W : Type 0} (lib : StorageLibrary W) (clock : Clock) where
  -- The return after the wait
  unfoldable pub after_storage_wait :
      StorageClient W → Option Error → W → Result Error (StorageClient W) × W
  after_storage_wait c none w = (ok c, w)
  after_storage_wait c (some e) w = let (closed, w') = c.client.close w in (err e, w')

  unfoldable pub with_storage_client :
      Text → Result Error (StorageApi W) → W → Result Error (StorageClient W) × W
  with_storage_client project_id (err e) w = (err (wrap creating_storage_client e), w)
  with_storage_client project_id (ok api) w =
      after_storage_wait (record { project_id = project_id; client = api })
        (wait_until_ready (codes "Cloud Storage") clock
          (λ n. api.buckets operation_timeout project_id n w))
        w

  unfoldable pub connect_storage : Text → Text → Method W (StorageClient W)
  connect_storage project_id host w =
      let (r, w') = lib.new_client (storage_client_options host) w in
      with_storage_client project_id r w'
