-- ===== src/Provisioner/Buckets.antt =====
-- internal/provisioner/buckets.go: one bucket is created, or its versioning is reconciled.
pub mod Convergence
pub mod Served
use gcp_emulator_provisioner.Prelude.{
  Bool, not, ◌&&◌, Option, none, some, List, [], ◌∷◌, ◌++◌, Text, codes, ok, err, Result, ◌==◌,
  is_empty, if◌then◌else◌,
}
use gcp_emulator_provisioner.Config.Schema
use gcp_emulator_provisioner.Config.Strategy.{create}
use gcp_emulator_provisioner.Client.Resources.{Bucket, deref_bool}
use gcp_emulator_provisioner.Client.Errors.{
  Error, wrap, checking_bucket, versioning_hint, is_missing_bucket, is_versioning_unsupported,
}
use gcp_emulator_provisioner.Provisioner.Effects.{
  Act, pure, raise, call, attempt, write_log, annotate, ◌>>=◌, ◌>>◌, bucket, would_create, creating,
  skipping, immutable, would_set_versioning, setting_versioning,
}
use gcp_emulator_provisioner.Provisioner.Admin.{Options, StorageAdmin}
use gcp_emulator_provisioner.Provisioner.Subscriptions.Diff.{eq_bool}
use gcp_emulator_provisioner.Runtime.{Runtime}

module _ (rt : Runtime) where
  -- The attributes that drifted and cannot change; the values stand in the log's line only.
  unfoldable pub create_only_drift : Schema.Bucket → Bucket → List Text
  create_only_drift cfg current =
      (if not (is_empty cfg.location)
          && (not (is_empty current.location) && not (rt.equal_fold cfg.location current.location))
        then codes "location" ∷ []
        else [])
      ++ (if not (is_empty cfg.storage_class)
            && (not (is_empty current.storage_class)
                && not (rt.equal_fold cfg.storage_class current.storage_class))
          then codes "storage_class" ∷ []
          else [])

  unfoldable pub annotate_versioning_error : Bool → Error → Error
  unfolding is_versioning_unsupported
  annotate_versioning_error wanted e =
      if wanted && is_versioning_unsupported rt e then wrap versioning_hint e else e

  -- The bucket that a creation sends
  unfoldable pub build_bucket : Schema.Bucket → Bucket
  build_bucket b = record {
    name = b.name;
    versioning_enabled = deref_bool b.versioning;
    location = b.location;
    storage_class = rt.to_upper b.storage_class;
  }

  module _ {W : Type 0} (admin : StorageAdmin W) (opts : Options) where
    unfoldable pub create_missing_bucket : Bucket → Act W (Unit {0})
    create_missing_bucket desired =
        if opts.dry_run
        then write_log (would_create bucket desired.name)
        else (write_log (creating bucket desired.name)
            >> annotate (annotate_versioning_error desired.versioning_enabled)
                (call (admin.create_bucket desired)))

    unfoldable pub set_versioning_to : Text → Bool → Bool → Act W (Unit {0})
    set_versioning_to name current desired =
        if eq_bool current desired
        then pure tt
        else if opts.dry_run
        then write_log (would_set_versioning name)
        else (write_log (setting_versioning name)
            >> annotate (annotate_versioning_error desired)
                (call (admin.set_versioning name desired)))

    unfoldable pub ensure_versioning : Text → Option Bool → Bucket → Act W (Unit {0})
    ensure_versioning name none current = pure tt
    ensure_versioning name (some desired) current =
        set_versioning_to name current.versioning_enabled desired

    unfoldable pub warn_create_only : Text → List Text → Act W (Unit {0})
    warn_create_only name [] = pure tt
    warn_create_only name (field ∷ fields) =
        write_log (immutable bucket name field) >> warn_create_only name fields

    unfoldable pub reconcile_bucket : Schema.Bucket → Bucket → Text → Act W (Unit {0})
    reconcile_bucket b current strategy =
        if strategy == create
        then write_log (skipping bucket b.name)
        else (warn_create_only b.name
              (if opts.compare_create_only_bucket_attrs then create_only_drift b current else [])
            >> ensure_versioning b.name b.versioning current)

    -- What follows the call of `GetBucket`, by its result
    unfoldable pub settle_bucket : Schema.Bucket → Text → Result Error Bucket → Act W (Unit {0})
    settle_bucket b strategy (ok current) = reconcile_bucket b current strategy
    settle_bucket b strategy (err e) =
        if is_missing_bucket e
        then create_missing_bucket (build_bucket b)
        else raise (wrap checking_bucket e)

    unfoldable pub ensure_bucket : Schema.Bucket → Text → Act W (Unit {0})
    ensure_bucket b strategy = do
      found ← attempt (call (admin.get_bucket b.name))
      settle_bucket b strategy found
