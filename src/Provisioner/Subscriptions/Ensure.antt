-- ===== src/Provisioner/Subscriptions/Ensure.antt =====
-- `ensureSubscription` of internal/provisioner/subscriptions.go.
use gcp_emulator_provisioner.Prelude.{
  Option, none, some, List, [], ◌∷◌, Text, ok, err, Result, ◌==◌, if◌then◌else◌,
}
use gcp_emulator_provisioner.Config.Schema
use gcp_emulator_provisioner.Config.Strategy.{create}
use gcp_emulator_provisioner.Client.Resources.{Subscription, PushConfig, FieldPath}
use gcp_emulator_provisioner.Client.Errors.{Error, wrap, checking_subscription, is_missing}
use gcp_emulator_provisioner.Provisioner.Effects.{
  Act, pure, raise, lift, call, attempt, write_log, ◌>>=◌, ◌>>◌, subscription, would_create,
  creating, skipping, would_update, updating, unsupported, immutable,
}
use gcp_emulator_provisioner.Provisioner.Admin.{Options, PubSubAdmin}
use gcp_emulator_provisioner.Provisioner.Labels.{merge_labels}
use gcp_emulator_provisioner.Provisioner.Update.{apply_paths}
use gcp_emulator_provisioner.Provisioner.Subscriptions.Build.{build_subscription}
use gcp_emulator_provisioner.Provisioner.Subscriptions.Diff.{immutable_drift, diff_subscription}
use gcp_emulator_provisioner.Runtime.{Runtime}

-- The push attributes on the live subscription are carried across.
unfoldable pub merge_push : Option PushConfig → Option PushConfig → Option PushConfig
unfolding merge_labels
merge_push (some current) (some desired) =
    some (record desired { attributes = merge_labels current.attributes desired.attributes })
merge_push none desired = desired
merge_push (some current) none = none

-- What an update sends: the desired subscription with the live labels and push attributes
unfoldable pub merge_subscription : Subscription → Subscription → Subscription
unfolding merge_push
merge_subscription current desired = record desired {
  labels = merge_labels current.labels desired.labels;
  push = merge_push current.push desired.push;
}

module _ {W : Type 0} where
  -- One warning for each field
  unfoldable pub warn_immutable : Text → List Text → Act W (Unit {0})
  warn_immutable name [] = pure tt
  warn_immutable name (field ∷ fields) =
      write_log (immutable subscription name field) >> warn_immutable name fields

module _ (rt : Runtime) {W : Type 0} (admin : PubSubAdmin W) (opts : Options) where
  unfoldable pub create_missing_subscription : Subscription → Act W (Unit {0})
  create_missing_subscription desired =
      if opts.dry_run
      then write_log (would_create subscription desired.name)
      else (write_log (creating subscription desired.name)
          >> call (admin.create_subscription desired))

  unfoldable pub update_subscription :
      Subscription → Subscription → List FieldPath → Act W (Unit {0})
  update_subscription current desired paths =
      let merged = merge_subscription current desired in
      write_log (updating subscription desired.name paths)
      >> apply_paths rt (λ mask. call (admin.update_subscription merged mask))
          (λ path. write_log (unsupported subscription desired.name path)) paths

  unfoldable pub reconcile_paths : Subscription → Subscription → List FieldPath → Act W (Unit {0})
  reconcile_paths current desired [] = pure tt
  reconcile_paths current desired (path ∷ paths) =
      if opts.dry_run
      then write_log (would_update subscription desired.name (path ∷ paths))
      else update_subscription current desired (path ∷ paths)

  unfoldable pub reconcile_subscription : Subscription → Subscription → Text → Act W (Unit {0})
  reconcile_subscription current desired strategy =
      if strategy == create
      then write_log (skipping subscription desired.name)
      else (warn_immutable desired.name (immutable_drift current desired)
          >> reconcile_paths current desired (diff_subscription current desired))

  -- What follows the call of `GetSubscription`, by its result
  unfoldable pub settle_subscription :
      Subscription → Text → Result Error Subscription → Act W (Unit {0})
  settle_subscription desired strategy (ok current) =
      reconcile_subscription current desired strategy
  settle_subscription desired strategy (err e) =
      if is_missing e
      then create_missing_subscription desired
      else raise (wrap checking_subscription e)

  unfoldable pub ensure_subscription : Text → Schema.Subscription → Text → Act W (Unit {0})
  ensure_subscription topic_name sub strategy = do
    desired ← lift (build_subscription rt topic_name sub)
    found ← attempt (call (admin.get_subscription sub.name))
    settle_subscription desired strategy found
