-- ===== src/Provisioner/Topics.antt =====
-- internal/provisioner/topics.go: one topic is built, compared and created or updated.
pub mod Laws
pub mod Kept
pub mod Convergence
use gcp_emulator_provisioner.Prelude.{
  ◌≡◌, Bool, true, false, not, ◌&&◌, Option, none, some, List, [], ◌∷◌, ◌++◌, Text, Dict, ok, err,
  Result, ◌==◌, if◌then◌else◌,
}
use gcp_emulator_provisioner.Prelude.Int.{pos, pos_part, neg_part, ltb_ℤ, eq_ℤ}
use gcp_emulator_provisioner.Config.Schema
use gcp_emulator_provisioner.Config.Strategy.{create}
use gcp_emulator_provisioner.Config.Duration.{parse_duration}
use gcp_emulator_provisioner.Config.GoTime.{Duration}
use gcp_emulator_provisioner.Config.Validate.Subscriptions.{no_entries}
use gcp_emulator_provisioner.Client.Resources.{Topic, FieldPath, message_retention_duration, labels}
use gcp_emulator_provisioner.Client.Errors.{
  Error, plain, wrap, parsing_message_retention, checking_topic, is_missing, Context,
}
use gcp_emulator_provisioner.Provisioner.Effects.{
  Act, pure, raise, lift, call, attempt, write_log, annotate, ◌>>=◌, ◌>>◌, Kind, topic,
  would_create, creating, skipping, would_update, updating, unsupported,
}
use gcp_emulator_provisioner.Provisioner.Admin.{Options, PubSubAdmin}
use gcp_emulator_provisioner.Provisioner.Labels.{labels_subset, merge_labels}
use gcp_emulator_provisioner.Provisioner.Update.{apply_paths}
use gcp_emulator_provisioner.Provisioner.Update.Masks.{when}
use gcp_emulator_provisioner.Runtime.{Runtime}

unfoldable pub diff_topic : Topic → Topic → List FieldPath
unfolding labels_subset
diff_topic current desired =
    when
      (ltb_ℤ (pos 0) desired.message_retention
        && not (eq_ℤ current.message_retention desired.message_retention))
      message_retention_duration
    ++ when (not (no_entries desired.labels) && not (labels_subset desired.labels current.labels))
        labels

-- What an update sends: the desired topic with the live labels
unfoldable pub merge_topic : Topic → Topic → Topic
unfolding merge_labels
merge_topic current desired = record desired { labels = merge_labels current.labels desired.labels }

module _ (rt : Runtime) where
  -- A duration of the configuration, or the wrapped error of the parser
  unfoldable pub built_duration : Context → Text → Result Error Duration
  built_duration c value = elim (parse_duration rt.fraction value) [
    | none ↦ err (wrap c (plain (rt.duration_error value)))
    | some d ↦ ok d
  ]

  unfoldable pub build_topic : Schema.Topic → Result Error Topic
  unfolding built_duration
  build_topic t = elim (built_duration parsing_message_retention t.message_retention) [
    | err e ↦ err e
    | ok retention ↦ ok (record { name = t.name; labels = t.labels; message_retention = retention })
  ]

  module _ {W : Type 0} (admin : PubSubAdmin W) (opts : Options) where
    unfoldable pub create_missing_topic : Topic → Act W (Unit {0})
    create_missing_topic desired =
        if opts.dry_run
        then write_log (would_create topic desired.name)
        else (write_log (creating topic desired.name) >> call (admin.create_topic desired))

    -- The update of a topic on the paths where it drifted
    unfoldable pub update_topic : Topic → Topic → List FieldPath → Act W (Unit {0})
    update_topic current desired paths =
        let merged = merge_topic current desired in
        write_log (updating topic desired.name paths)
        >> apply_paths rt (λ mask. call (admin.update_topic merged mask))
            (λ path. write_log (unsupported topic desired.name path)) paths

    unfoldable pub reconcile_topic_paths : Topic → Topic → List FieldPath → Act W (Unit {0})
    reconcile_topic_paths current desired [] = pure tt
    reconcile_topic_paths current desired (path ∷ paths) =
        if opts.dry_run
        then write_log (would_update topic desired.name (path ∷ paths))
        else update_topic current desired (path ∷ paths)

    unfoldable pub reconcile_topic : Topic → Topic → Text → Act W (Unit {0})
    reconcile_topic current desired strategy =
        if strategy == create
        then write_log (skipping topic desired.name)
        else reconcile_topic_paths current desired (diff_topic current desired)

    -- What follows the call of `GetTopic`, by its result
    unfoldable pub settle_topic : Topic → Text → Result Error Topic → Act W (Unit {0})
    settle_topic desired strategy (ok current) = reconcile_topic current desired strategy
    settle_topic desired strategy (err e) =
        if is_missing e then create_missing_topic desired else raise (wrap checking_topic e)

    unfoldable pub ensure_topic : Schema.Topic → Text → Act W (Unit {0})
    ensure_topic t strategy = do
      desired ← lift (build_topic t)
      found ← attempt (call (admin.get_topic t.name))
      settle_topic desired strategy found
