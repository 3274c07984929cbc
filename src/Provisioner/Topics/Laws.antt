-- ===== src/Provisioner/Topics/Laws.antt =====
-- What an update of a topic leaves to the next comparison.
use mathlib.Core.List.{append-nil}
use gcp_emulator_provisioner.Prelude.{
  ◌≡◌, refl, ◌≢◌, Bool, false, not, ◌&&◌, List, [], ◌∷◌, arith, DistinctKeys,
}
use gcp_emulator_provisioner.Prelude.Int.{pos, ltb_ℤ, eq_ℤ, eq_ℤ-refl}
use gcp_emulator_provisioner.Config.Validate.Subscriptions.{no_entries}
use gcp_emulator_provisioner.Client.Resources.{Topic, FieldPath, message_retention_duration, labels}
use gcp_emulator_provisioner.Provisioner.Labels.{labels_subset}
use gcp_emulator_provisioner.Provisioner.Labels.Laws.{
  labels_subset-merge_labels, labels_subset_refl,
}
use gcp_emulator_provisioner.Provisioner.Update.Masks.{
  supported, refused, set_all, drifted, drifted-set_all,
}
use gcp_emulator_provisioner.Provisioner.Topics.{diff_topic, merge_topic}

-- What the service does to a live topic for one path of a mask: it takes the field from the topic
-- that was sent.
abbrev pub set_topic : Topic → FieldPath → Topic → Topic
set_topic sent message_retention_duration live = record live {
  message_retention = sent.message_retention;
}
set_topic sent labels live = record live { labels = sent.labels }
set_topic sent _ live = live

abbrev topic_drifts : Topic → FieldPath → Topic → Bool
topic_drifts desired message_retention_duration current =
    ltb_ℤ (pos 0) desired.message_retention
    && not (eq_ℤ current.message_retention desired.message_retention)
topic_drifts desired labels current =
    not (no_entries desired.labels) && not (labels_subset desired.labels current.labels)
topic_drifts desired _ current = false

abbrev topic_paths : List FieldPath
topic_paths = message_retention_duration ∷ labels ∷ []

diff_topic-eq-drifted :
    (current desired : Topic)
    → diff_topic current desired ≡ drifted (topic_drifts desired) topic_paths current
unfolding diff_topic
diff_topic-eq-drifted current desired = rw append-nil

topic_apart :
    (desired sent : Topic) (p q : FieldPath) (r : Topic)
    → p ≢ q
    → topic_drifts desired p (set_topic sent q r) ≡ topic_drifts desired p r
topic_apart desired sent message_retention_duration message_retention_duration r h = absurd (h refl)
topic_apart desired sent labels labels r h = absurd (h refl)
topic_apart desired sent p q r h = refl

topic_settles :
    (current desired : Topic)
    → DistinctKeys current.labels
    → DistinctKeys desired.labels
    → (p : FieldPath) (r : Topic)
    → topic_drifts desired p (set_topic (merge_topic current desired) p r) ≡ false
unfolding merge_topic
topic_settles current desired hc hd message_retention_duration r =
    ground (arith, eq_ℤ-refl desired.message_retention)
topic_settles current desired hc hd labels r =
    ground (arith, labels_subset-merge_labels current.labels desired.labels hc hd)
topic_settles current desired hc hd _ r = refl

-- After one update of a topic, in which the service applied the paths that it supports, the next
-- comparison finds exactly the paths that it refused. With every path supported it finds none.
pub diff_topic-set_all :
    (supports : FieldPath → Bool) (current desired : Topic)
    → DistinctKeys current.labels
    → DistinctKeys desired.labels
    → diff_topic
        (set_all
          (set_topic (merge_topic current desired))
          (supported supports (diff_topic current desired))
          current)
        desired
      ≡ refused supports (diff_topic current desired)
diff_topic-set_all supports current desired hc hd =
    rw (diff_topic-eq-drifted current desired, diff_topic-eq-drifted)
      (drifted-set_all (topic_drifts desired) (set_topic (merge_topic current desired))
        (topic_settles current desired hc hd) (topic_apart desired (merge_topic current desired))
        supports topic_paths current)

-- A topic does not drift from itself.
pub diff_topic_self : (t : Topic) → DistinctKeys t.labels → diff_topic t t ≡ []
unfolding diff_topic
diff_topic_self t h = ground (arith, eq_ℤ-refl t.message_retention, labels_subset_refl t.labels h)
