-- ===== src/Provisioner/Topics/Kept.antt =====
-- What a run of `ensureTopic` of internal/provisioner/topics.go makes of a topic, as the program sees
-- it and as the service keeps it.
use gcp_emulator_provisioner.Prelude.{
  ◌≡◌, refl, ◌∙◌, ap, false, Bool-cases, inl, inr, Option, none, some, [], arith, Text, ◌==◌,
  DistinctKeys, if◌then◌else◌,
}
use gcp_emulator_provisioner.Config.Strategy.{create}
use gcp_emulator_provisioner.Client.Resources.{Topic, FieldPath}
use gcp_emulator_provisioner.Provisioner.Update.Masks.{supported, set_all, supported-refused}
use gcp_emulator_provisioner.Provisioner.Service.{Support, Form, viewed, view-set_all}
use gcp_emulator_provisioner.Provisioner.Topics.{diff_topic, merge_topic}
use gcp_emulator_provisioner.Provisioner.Topics.Laws.{
  set_topic, diff_topic-set_all, diff_topic_self,
}

module _ (u : Support) (desired : Topic) (strategy : Text) where
  -- What a run makes of a topic that is there
  abbrev pub reconciled : Topic → Topic
  reconciled live =
      if strategy == create
      then live
      else set_all (set_topic (merge_topic live desired))
          (supported u.supports (diff_topic live desired)) live

  -- What a run makes of a topic that may be there
  abbrev pub ensured : Option Topic → Topic
  ensured none = desired
  ensured (some live) = reconciled live

  module _ {R : Type 0} (form : Form R Topic) where
    -- The same of what the service keeps
    abbrev pub kept : Option R → R
    kept none = form.make desired
    kept (some live) =
        if strategy == create
        then live
        else set_all (form.set (merge_topic (form.view live) desired))
            (supported u.supports (diff_topic (form.view live) desired)) live

    module _ (made : form.view (form.make desired) ≡ desired)
        (sets : (live : Topic) (p : FieldPath) (r : R)
          → form.view (form.set (merge_topic live desired) p r)
            ≡ set_topic (merge_topic live desired) p (form.view r)) where
      pub view-kept : (found : Option R) → form.view (kept found) ≡ ensured (viewed form found)
      view-kept none = made
      view-kept (some live) = elim (Bool-cases (strategy == create)) [
        | inl same ↦ rw same refl
        | inr differ ↦ rw differ (
            view-set_all form (set_topic (merge_topic (form.view live) desired))
              (merge_topic (form.view live) desired) (sets (form.view live))
              (supported u.supports (diff_topic (form.view live) desired)) live)
      ]

      -- What drifts afterwards is not supported.
      settled :
          (found : Option R)
          → ((live : Topic) → viewed form found ≡ some live → DistinctKeys live.labels)
          → DistinctKeys desired.labels
          → (strategy == create) ≡ false
          → supported u.supports (diff_topic (form.view (kept found)) desired) ≡ []
      settled none hl hd differ = rw (made, diff_topic_self desired hd) refl
      settled (some live) hl hd differ =
          rw (view-kept (some live), differ)
            (ap (supported u.supports) (
                diff_topic-set_all u.supports (form.view live) desired (hl (form.view live) refl)
                  hd)
              ∙ supported-refused u.supports (diff_topic (form.view live) desired))

      pub kept_again :
          (found : Option R)
          → ((live : Topic) → viewed form found ≡ some live → DistinctKeys live.labels)
          → DistinctKeys desired.labels
          → kept (some (kept found)) ≡ kept found
      kept_again found hl hd = elim (Bool-cases (strategy == create)) [
        | inl same ↦ rw same refl
        | inr differ ↦ ground (arith, settled found hl hd differ)
      ]
