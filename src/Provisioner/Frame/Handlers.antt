-- ===== src/Provisioner/Frame/Handlers.antt =====
-- The handlers of one topic, subscription, bucket or key file under a view of the world that their
-- calls keep.
use gcp_emulator_provisioner.Prelude.{
  ◌≡◌, refl, Bool, true, false, Option, none, some, List, [], ◌∷◌, ◌++◌, arith, Text, ok, err,
  Result, Bool-cases, inl, inr, ◌==◌,
}
use gcp_emulator_provisioner.Config.Schema
use gcp_emulator_provisioner.Client.Resources.{Topic, Subscription, Bucket, FieldPath}
use gcp_emulator_provisioner.Client.Errors.{Error}
use gcp_emulator_provisioner.Credentials.{System, or_default, generate, write}
use gcp_emulator_provisioner.Provisioner.Effects.{
  Run, topic, subscription, unsupported, updating, wrote, write_log, lift, attempt, call, ◌>>=◌,
  ◌>>◌,
}
use gcp_emulator_provisioner.Provisioner.Admin.{Options, PubSubAdmin, StorageAdmin}
use gcp_emulator_provisioner.Provisioner.Topics.{
  build_topic, ensure_topic, diff_topic, settle_topic, reconcile_topic, reconcile_topic_paths,
  create_missing_topic, update_topic, merge_topic,
}
use gcp_emulator_provisioner.Provisioner.Subscriptions.Ensure.{
  warn_immutable, reconcile_paths, reconcile_subscription, create_missing_subscription,
  settle_subscription, ensure_subscription, update_subscription, merge_subscription,
}
use gcp_emulator_provisioner.Config.Strategy.{create}
use gcp_emulator_provisioner.Provisioner.Subscriptions.Build.{build_subscription}
use gcp_emulator_provisioner.Provisioner.Subscriptions.Diff.{immutable_drift, diff_subscription}
use gcp_emulator_provisioner.Provisioner.Buckets.{
  warn_create_only, set_versioning_to, ensure_versioning, reconcile_bucket, create_missing_bucket,
  settle_bucket, ensure_bucket, build_bucket,
}
use gcp_emulator_provisioner.Provisioner.Keys.{file_exists, write_credential, ensure_credential}
use gcp_emulator_provisioner.Runtime.{Runtime}
use gcp_emulator_provisioner.Provisioner.Frame.{Keeps, bind-Keeps, Frame}
use gcp_emulator_provisioner.Provisioner.Frame.Updates.{
  apply_paths-Keeps, generate-Keeps, write-Keeps,
}

module _ (rt : Runtime) {W V : Type 0} (view : W → V) (pubsub : PubSubAdmin W)
    (storage : StorageAdmin W) (sys : System W) (opts : Options)
    (frame : Frame view opts.dry_run pubsub storage sys) where
  create_missing_topic-Keeps :
      (desired : Topic) → Keeps view (create_missing_topic rt pubsub opts desired)
  unfolding create_missing_topic
  create_missing_topic-Keeps desired s = ground (
    arith,
    λ (applied : opts.dry_run ≡ false). frame.on_pubsub.create_topic applied desired s.world,
  )

  update_topic-Keeps :
      (current desired : Topic) (paths : List FieldPath) (s : Run W)
      → opts.dry_run ≡ false
      → view (update_topic rt pubsub opts current desired paths s).1.world ≡ view s.world
  unfolding update_topic
  update_topic-Keeps current desired paths s applied =
      let merged = merge_topic current desired in
      apply_paths-Keeps rt view (λ mask. call (pubsub.update_topic merged mask))
        (λ p. write_log (unsupported topic desired.name p))
        (λ mask t. frame.on_pubsub.update_topic applied merged mask t.world) (λ p t. refl) paths
        (record s { log = s.log ++ (updating topic desired.name paths ∷ []) })

  reconcile_topic_paths-Keeps :
      (current desired : Topic) (paths : List FieldPath)
      → Keeps view (reconcile_topic_paths rt pubsub opts current desired paths)
  unfolding reconcile_topic_paths
  reconcile_topic_paths-Keeps current desired [] s = refl
  reconcile_topic_paths-Keeps current desired (p ∷ paths) s =
      ground (arith, update_topic-Keeps current desired (p ∷ paths) s)

  settle_topic-Keeps :
      (desired : Topic) (strategy : Text) (found : Result Error Topic)
      → Keeps view (settle_topic rt pubsub opts desired strategy found)
  unfolding settle_topic reconcile_topic
  settle_topic-Keeps desired strategy (ok current) s =
      ground (arith, reconcile_topic_paths-Keeps current desired (diff_topic current desired) s)
  settle_topic-Keeps desired strategy (err e) s =
      ground (arith, create_missing_topic-Keeps desired s)

  pub ensure_topic-Keeps :
      (t : Schema.Topic) (strategy : Text) → Keeps view (ensure_topic rt pubsub opts t strategy)
  unfolding ensure_topic
  ensure_topic-Keeps t strategy =
      bind-Keeps view (lift (build_topic rt t))
        (λ desired.
          attempt (call (pubsub.get_topic t.name)) >>= settle_topic rt pubsub opts desired strategy)
        (λ s. refl)
        λ desired.
          bind-Keeps view (attempt (call (pubsub.get_topic t.name)))
            (settle_topic rt pubsub opts desired strategy)
            (λ s. frame.on_pubsub.get_topic t.name s.world) (settle_topic-Keeps desired strategy)

  warn_immutable-Keeps :
      (name : Text) (fields : List Text) → Keeps view (warn_immutable {W = W} name fields)
  unfolding warn_immutable
  warn_immutable-Keeps name [] s = refl
  warn_immutable-Keeps name (f ∷ fields) s = warn_immutable-Keeps name fields _

  create_missing_subscription-Keeps :
      (desired : Subscription) → Keeps view (create_missing_subscription rt pubsub opts desired)
  unfolding create_missing_subscription
  create_missing_subscription-Keeps desired s = ground (
    arith,
    λ (applied : opts.dry_run ≡ false). frame.on_pubsub.create_subscription applied desired s.world,
  )

  update_subscription-Keeps :
      (current desired : Subscription) (paths : List FieldPath) (s : Run W)
      → opts.dry_run ≡ false
      → view (update_subscription rt pubsub opts current desired paths s).1.world ≡ view s.world
  unfolding update_subscription
  update_subscription-Keeps current desired paths s applied =
      let merged = merge_subscription current desired in
      apply_paths-Keeps rt view (λ mask. call (pubsub.update_subscription merged mask))
        (λ p. write_log (unsupported subscription desired.name p))
        (λ mask t. frame.on_pubsub.update_subscription applied merged mask t.world) (λ p t. refl)
        paths (record s { log = s.log ++ (updating subscription desired.name paths ∷ []) })

  reconcile_paths-Keeps :
      (current desired : Subscription) (paths : List FieldPath)
      → Keeps view (reconcile_paths rt pubsub opts current desired paths)
  unfolding reconcile_paths
  reconcile_paths-Keeps current desired [] s = refl
  reconcile_paths-Keeps current desired (p ∷ paths) s =
      ground (arith, update_subscription-Keeps current desired (p ∷ paths) s)

  reconcile_subscription-Keeps :
      (current desired : Subscription) (strategy : Text)
      → Keeps view (reconcile_subscription rt pubsub opts current desired strategy)
  unfolding reconcile_subscription
  reconcile_subscription-Keeps current desired strategy s = elim (Bool-cases (strategy == create)) [
    | inl p ↦ rw p refl
    | inr p ↦ rw p (
        bind-Keeps view (warn_immutable desired.name (immutable_drift current desired)) _
          (warn_immutable-Keeps _ _)
          (λ _. reconcile_paths-Keeps current desired (diff_subscription current desired)) s)
  ]

  settle_subscription-Keeps :
      (desired : Subscription) (strategy : Text) (found : Result Error Subscription)
      → Keeps view (settle_subscription rt pubsub opts desired strategy found)
  unfolding settle_subscription
  settle_subscription-Keeps desired strategy (ok current) s =
      reconcile_subscription-Keeps current desired strategy s
  settle_subscription-Keeps desired strategy (err e) s =
      ground (arith, create_missing_subscription-Keeps desired s)

  pub ensure_subscription-Keeps :
      (on_topic : Text) (sub : Schema.Subscription) (strategy : Text)
      → Keeps view (ensure_subscription rt pubsub opts on_topic sub strategy)
  unfolding ensure_subscription
  ensure_subscription-Keeps on_topic sub strategy =
      bind-Keeps view (lift (build_subscription rt on_topic sub))
        (λ desired.
          attempt (call (pubsub.get_subscription sub.name))
          >>= settle_subscription rt pubsub opts desired strategy)
        (λ s. refl)
        λ desired.
          bind-Keeps view (attempt (call (pubsub.get_subscription sub.name)))
            (settle_subscription rt pubsub opts desired strategy)
            (λ s. frame.on_pubsub.get_subscription sub.name s.world)
            (settle_subscription-Keeps desired strategy)

  warn_create_only-Keeps :
      (name : Text) (fields : List Text) → Keeps view (warn_create_only rt storage opts name fields)
  unfolding warn_create_only
  warn_create_only-Keeps name [] s = refl
  warn_create_only-Keeps name (f ∷ fields) s = warn_create_only-Keeps name fields _

  ensure_versioning-Keeps :
      (name : Text) (wanted : Option Bool) (current : Bucket)
      → Keeps view (ensure_versioning rt storage opts name wanted current)
  unfolding ensure_versioning set_versioning_to
  ensure_versioning-Keeps name none current s = refl
  ensure_versioning-Keeps name (some b) current s = ground (
    arith,
    λ (applied : opts.dry_run ≡ false). frame.on_storage.set_versioning applied name b s.world,
  )

  reconcile_bucket-Keeps :
      (b : Schema.Bucket) (current : Bucket) (strategy : Text)
      → Keeps view (reconcile_bucket rt storage opts b current strategy)
  unfolding reconcile_bucket
  reconcile_bucket-Keeps b current strategy s = elim (Bool-cases (strategy == create)) [
    | inl p ↦ rw p refl
    | inr p ↦ rw p (
        bind-Keeps view (warn_create_only rt storage opts b.name _) _
          (warn_create_only-Keeps b.name _)
          (λ _. ensure_versioning-Keeps b.name b.versioning current) s)
  ]

  create_missing_bucket-Keeps :
      (desired : Bucket) → Keeps view (create_missing_bucket rt storage opts desired)
  unfolding create_missing_bucket
  create_missing_bucket-Keeps desired s = ground (
    arith,
    λ (applied : opts.dry_run ≡ false). frame.on_storage.create_bucket applied desired s.world,
  )

  settle_bucket-Keeps :
      (b : Schema.Bucket) (strategy : Text) (found : Result Error Bucket)
      → Keeps view (settle_bucket rt storage opts b strategy found)
  unfolding settle_bucket
  settle_bucket-Keeps b strategy (ok current) s = reconcile_bucket-Keeps b current strategy s
  settle_bucket-Keeps b strategy (err e) s =
      ground (arith, create_missing_bucket-Keeps (build_bucket rt b) s)

  pub ensure_bucket-Keeps :
      (b : Schema.Bucket) (strategy : Text) → Keeps view (ensure_bucket rt storage opts b strategy)
  unfolding ensure_bucket
  ensure_bucket-Keeps b strategy =
      bind-Keeps view (attempt (call (storage.get_bucket b.name)))
        (settle_bucket rt storage opts b strategy) (λ s. frame.on_storage.get_bucket b.name s.world)
        (settle_bucket-Keeps b strategy)

  write_key-Keeps :
      (project : Text) (cred : Schema.Credential) (s : Run W)
      → opts.dry_run ≡ false
      → view (write_credential sys false project cred true s).1.world ≡ view s.world
  unfolding write_credential
  write_key-Keeps project cred s applied =
      bind-Keeps view (generate sys project (or_default cred.account) cred.token_uri)
        (λ key. write sys cred.path key >> write_log (wrote cred.path))
        (generate-Keeps view sys project (or_default cred.account) cred.token_uri
          (frame.on_system.generate_key applied))
        (λ key.
          bind-Keeps view (write sys cred.path key) (λ _. write_log (wrote cred.path))
            (write-Keeps view sys cred.path key (frame.on_system.make_directories applied)
              (frame.on_system.write_file applied))
            (λ _ t. refl))
        s

  write_credential-Keeps :
      (project : Text) (cred : Schema.Credential) (exists : Bool)
      → Keeps view (write_credential sys opts.dry_run project cred exists)
  write_credential-Keeps project cred exists s = elim (Bool-cases opts.dry_run) [
    | inl dry ↦ unfold write_credential in rw dry refl
    | inr applied ↦ rw applied (unfold write_credential in write_key-Keeps project cred s applied)
  ]

  file_exists-Keeps : (path : Text) → Keeps view (file_exists sys path)
  unfolding file_exists
  file_exists-Keeps path s = ground (arith, frame.on_system.stat path s.world)

  pub ensure_credential-Keeps :
      (project : Text) (cred : Schema.Credential) (strategy : Text)
      → Keeps view (ensure_credential sys opts.dry_run project cred strategy)
  unfolding ensure_credential
  ensure_credential-Keeps project cred strategy s = ground (
    arith,
    file_exists-Keeps cred.path s,
    write_credential-Keeps project cred true (file_exists sys cred.path s).1,
    write_credential-Keeps project cred false (file_exists sys cred.path s).1,
  )
