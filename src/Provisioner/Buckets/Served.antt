-- ===== src/Provisioner/Buckets/Served.antt =====
-- The client of internal/client/storage.go as the interface that internal/provisioner/buckets.go
-- calls.
use gcp_emulator_provisioner.Prelude.{
  ℕ, ◌≡◌, refl, false, Option, none, some, arith, Text, ok, err, Bool, Result, if◌then◌else◌, ◌==◌,
}
use gcp_emulator_provisioner.Config.Schema
use gcp_emulator_provisioner.Client.Resources.{Bucket}
use gcp_emulator_provisioner.Client.Errors.{Error, bucket_not_exist, is_bucket_not_exist}
use gcp_emulator_provisioner.Client.Storage.{
  BucketAttrs, StorageApi, StorageClient, operation_timeout, from_attrs, to_attrs, bucket_answer,
  versioning_answer, create_bucket_answer, get_bucket, create_bucket, set_versioning, admin,
}
use gcp_emulator_provisioner.Provisioner.Effects.{Run}
use gcp_emulator_provisioner.Provisioner.Admin.{Options}
use gcp_emulator_provisioner.Provisioner.Service.{Table}
use gcp_emulator_provisioner.Provisioner.Buckets.{ensure_bucket}
use gcp_emulator_provisioner.Provisioner.Buckets.Convergence.{
  ServesBuckets, found_bucket, ensured, ensure_bucket_twice,
}
use gcp_emulator_provisioner.Runtime.{Runtime}

abbrev pub found_attrs : {W : Type 0} → W → Text → Option BucketAttrs → Result Error BucketAttrs × W
found_attrs w text none = (err (bucket_not_exist text), w)
found_attrs w text (some a) = (ok a, w)

-- A service that keeps the attributes of its buckets in a table under their names
pub record KeepsAttrs {W : Type 0} (api : StorageApi W) (project_id : Text)
    (table : Table W BucketAttrs) (absence : Text → Text) : Type 0 where
  pub attrs :
      (t : ℕ) (n : Text) (w : W) → api.attrs t n w ≡ found_attrs w (absence n) (table.at w n)
  pub create :
      (t : ℕ) (n : Text) (a : BucketAttrs) (w : W)
      → table.at w n ≡ none
      → api.create t n project_id a w ≡ (ok tt, table.put n (record a { name = n }) w)
  pub update_versioning :
      (t : ℕ) (n : Text) (v : Bool) (live : BucketAttrs) (w : W)
      → table.at w n ≡ some live
      → api.update_versioning t n v w
        ≡ (ok tt, table.put n (record live { versioning_enabled = v }) w)

abbrev pub bucket_of : Option BucketAttrs → Option Bucket
bucket_of none = none
bucket_of (some a) = some (from_attrs a)

abbrev pub attrs_of : Bucket → BucketAttrs
attrs_of b = record {
  name = b.name;
  versioning_enabled = b.versioning_enabled;
  location = b.location;
  storage_class = b.storage_class;
}

pub attrs_of-some :
    (o : Option BucketAttrs) (b : Bucket) → bucket_of o ≡ some b → o ≡ some (attrs_of b)
unfolding from_attrs
attrs_of-some none b h = cc
attrs_of-some (some a) b h = cc

module _ {W : Type 0} (table : Table W BucketAttrs) where
  -- The same table with the buckets that the program sees
  abbrev pub buckets_at : W → Text → Option Bucket
  buckets_at w n = bucket_of (table.at w n)

  pub buckets_at-put :
      (n : Text) (b : Bucket) (w : W) (j : Text)
      → buckets_at (table.put n (attrs_of b) w) j ≡ (if n == j then some b else buckets_at w j)
  unfolding from_attrs
  buckets_at-put n b w j = rw (table.at-put n (attrs_of b) w j) (ground arith)

  abbrev pub buckets_of : Table W Bucket
  buckets_of = record {
    at = buckets_at;
    put = λ n b w. table.put n (attrs_of b) w;
    at-put = buckets_at-put;
    put-put = λ n b b' w. table.put-put n (attrs_of b) (attrs_of b') w;
    put-at = λ n b w h. table.put-at n (attrs_of b) w (attrs_of-some (table.at w n) b h);
  }

module _ (rt : Runtime) {W : Type 0} (c : StorageClient W) (table : Table W BucketAttrs)
    (absence : Text → Text) (keeps : KeepsAttrs c.client c.project_id table absence) where
  answer_found :
      (n : Text) (w : W) (o : Option BucketAttrs)
      → let r = found_attrs w (absence n) o in
        (bucket_answer n r.0, r.1) ≡ found_bucket w (bucket_of o)
  unfolding bucket_answer is_bucket_not_exist
  answer_found n w none = refl
  answer_found n w (some a) = refl

  get_serves : (n : Text) (w : W) → get_bucket c n w ≡ found_bucket w (buckets_at table w n)
  unfolding get_bucket
  get_serves n w = rw (keeps.attrs operation_timeout n w) (answer_found n w (table.at w n))

  create_serves :
      (b : Bucket) (w : W)
      → buckets_at table w b.name ≡ none
      → create_bucket rt c b w ≡ (ok tt, table.put b.name (attrs_of b) w)
  unfolding create_bucket create_bucket_answer to_attrs
  create_serves b w h =
      rw (keeps.create operation_timeout b.name (to_attrs b) w (gone (table.at w b.name) h)) refl
    where
      gone : (o : Option BucketAttrs) → bucket_of o ≡ none → o ≡ none
      gone none e = refl
      gone (some a) e = cc

  versioning_serves :
      (n : Text) (v : Bool) (live : Bucket) (w : W)
      → buckets_at table w n ≡ some live
      → set_versioning c n v w
        ≡ (ok tt, table.put n (attrs_of (record live { versioning_enabled = v })) w)
  unfolding set_versioning versioning_answer
  versioning_serves n v live w h =
      rw
        (keeps.update_versioning operation_timeout n v (attrs_of live) w
          (attrs_of-some (table.at w n) live h))
        refl

  pub admin-ServesBuckets : ServesBuckets (admin rt c) (buckets_of table)
  unfolding admin
  admin-ServesBuckets = record {
    get = get_serves;
    create = create_serves;
    set_versioning = versioning_serves;
  }

  -- Where the service keeps the attributes of its buckets in a table, a run through the client that
  -- applies changes returns no error. The service then holds, under the name of the bucket, the
  -- attributes as configured if it was missing, as they were under the strategy "create", and with
  -- the configured versioning, if that is given, otherwise. A second run returns no error and leaves
  -- the world as the first one left it.
  pub ensure_bucket-admin :
      (opts : Options) (b : Schema.Bucket) (strategy : Text) (s : Run W)
      → opts.dry_run ≡ false
      → let first = ensure_bucket rt (admin rt c) opts b strategy s in
        let second = ensure_bucket rt (admin rt c) opts b strategy first.1 in
        (first.0 ≡ ok tt)
        × (table.at first.1.world b.name
            ≡ some (attrs_of (ensured rt b strategy (bucket_of (table.at s.world b.name)))))
        × (second.0 ≡ ok tt)
        × (second.1.world ≡ first.1.world)
  ensure_bucket-admin opts b strategy s applied =
      let (fine, held, fine', same) =
        ensure_bucket_twice rt (admin rt c) opts (buckets_of table) admin-ServesBuckets applied b
          strategy s in
      (fine, attrs_of-some (table.at _ b.name) _ held, fine', same)
