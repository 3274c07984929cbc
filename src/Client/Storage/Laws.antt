-- ===== src/Client/Storage/Laws.antt =====
-- Calls of internal/client/storage.go.
use gcp_emulator_provisioner.Prelude.{
  ℕ, ◌≡◌, true, Option, none, some, List, ◌++◌, arith, Text, codes, ok, err, Result, contains_text,
  contains_text-append, Bool,
}
use gcp_emulator_provisioner.Client.Resources.{Bucket}
use gcp_emulator_provisioner.Client.Errors.{Error, http, message}
use gcp_emulator_provisioner.Client.Connect.{Clock, ClientOption}
use gcp_emulator_provisioner.Client.Connect.Laws.{Links, Quiet}
use gcp_emulator_provisioner.Client.Storage.{
  BucketAttrs, StorageApi, StorageClient, StorageLibrary, operation_timeout, to_attrs,
  is_bucket_exists_error, create_bucket_answer, create_bucket, close, storage_client_options,
  after_storage_wait, with_storage_client, connect_storage,
}
use gcp_emulator_provisioner.Runtime.{Runtime}

-- A creation of a bucket whose name contains "409" that fails with an error that quotes the name is
-- taken for one that found the bucket there: whatever the code of the error is, the caller gets none.
pub create_bucket-misread :
    (rt : Runtime) {W : Type 0} (c : StorageClient W) (b : Bucket) (w w' : W) (code : ℕ)
    (before after : Text)
    → contains_text b.name (codes "409") ≡ true
    → c.client.create operation_timeout b.name c.project_id (to_attrs b) w
      ≡ (err (http code (before ++ b.name ++ after)), w')
    → create_bucket rt c b w ≡ (ok tt, w')
unfolding create_bucket create_bucket_answer is_bucket_exists_error message
create_bucket-misread rt c b w w' code before after h failed =
    rw failed (ground (arith, contains_text-append before b.name after (codes "409")))

-- What a client of package storage does other than closing opens and closes no connection.
pub record QuietApi {W : Type 0} (count : W → ℕ) (api : StorageApi W) : Type 0 where
  pub attrs : (t : ℕ) (n : Text) → Quiet count (api.attrs t n)
  pub create :
      (t : ℕ) (n project_id : Text) (a : BucketAttrs) → Quiet count (api.create t n project_id a)
  pub update_versioning : (t : ℕ) (n : Text) (v : Bool) → Quiet count (api.update_versioning t n v)

module _ {W : Type 0} (count : W → ℕ) (lib : StorageLibrary W) (clock : Clock)
    (dials : (opts : List ClientOption) (w : W)
      → Links count 1 (QuietApi count) (λ c v. (c.close v).1) w (lib.new_client opts w)) where
  abbrev pub LinksStorage : W → Result Error (StorageClient W) × W → Type 0
  LinksStorage w r = Links count 1 (λ c. QuietApi count c.client) (λ c u. (close c u).1) w r

  after_storage_wait-Links :
      (c : StorageClient W) (e : Option Error) (w v : W)
      → Links count 1 (QuietApi count) (λ a u. (a.close u).1) w (ok c.client, v)
      → LinksStorage w (after_storage_wait lib clock c e v)
  unfolding after_storage_wait close
  after_storage_wait-Links c none w v h = h
  after_storage_wait-Links c (some e) w v (one, quiet, shut) = omega (arith, shut v, one)

  storage_client-Links :
      (project_id : Text) (r : Result Error (StorageApi W)) (w v : W)
      → Links count 1 (QuietApi count) (λ a u. (a.close u).1) w (r, v)
      → LinksStorage w (with_storage_client lib clock project_id r v)
  unfolding with_storage_client
  storage_client-Links project_id (err e) w v dialled = dialled
  storage_client-Links project_id (ok api) w v dialled =
      after_storage_wait-Links (record { project_id = project_id; client = api }) _ w v dialled

  -- `ConnectStorage` leaves one connection more if it returns a client, which closing that client
  -- takes away again, and none if it returns an error.
  pub connect_storage-Links :
      (project_id host : Text) (w : W)
      → LinksStorage w (connect_storage lib clock project_id host w)
  unfolding connect_storage
  connect_storage-Links project_id host w =
      storage_client-Links project_id _ w _ (dials (storage_client_options host) w)
