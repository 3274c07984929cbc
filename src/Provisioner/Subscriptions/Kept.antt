-- ===== src/Provisioner/Subscriptions/Kept.antt =====
-- What a run of `ensureSubscription` of internal/provisioner/subscriptions.go makes of a subscription,
-- as the program sees it and as the service keeps it.
use gcp_emulator_provisioner.Prelude.{
  ◌≡◌, refl, ◌∙◌, ap, false, Bool-cases, inl, inr, Option, none, some, [], arith, Text, ◌==◌,
  if◌then◌else◌,
}
use gcp_emulator_provisioner.Config.Strategy.{create}
use gcp_emulator_provisioner.Client.Resources.{Subscription, FieldPath}
use gcp_emulator_provisioner.Provisioner.Update.Masks.{supported, set_all, supported-refused}
use gcp_emulator_provisioner.Provisioner.Service.{Support, Form, viewed, view-set_all}
use gcp_emulator_provisioner.Provisioner.Subscriptions.Diff.{diff_subscription}
use gcp_emulator_provisioner.Provisioner.Subscriptions.Ensure.{merge_subscription}
use gcp_emulator_provisioner.Provisioner.Subscriptions.Drifts.{set_subscription, HasMaps, IsFilled}
use gcp_emulator_provisioner.Provisioner.Subscriptions.Laws.{
  diff_subscription-set_all, diff_subscription-IsFilled,
}

module _ (u : Support) (fill : Subscription → Subscription) (desired : Subscription)
    (strategy : Text) where
  -- What a run makes of a subscription that is there
  abbrev pub reconciled : Subscription → Subscription
  reconciled live =
      if strategy == create
      then live
      else set_all (set_subscription (fill (merge_subscription live desired)))
          (supported u.supports (diff_subscription live desired)) live

  -- What a run makes of a subscription that may be there
  abbrev pub ensured : Option Subscription → Subscription
  ensured none = fill desired
  ensured (some live) = reconciled live

  module _ {R : Type 0} (form : Form R Subscription) where
    -- The same of what the service keeps
    abbrev pub kept : Option R → R
    kept none = form.make desired
    kept (some live) =
        if strategy == create
        then live
        else set_all (form.set (merge_subscription (form.view live) desired))
            (supported u.supports (diff_subscription (form.view live) desired)) live

    module _ (made : form.view (form.make desired) ≡ fill desired)
        (sets : (live : Subscription) (p : FieldPath) (r : R)
          → form.view (form.set (merge_subscription live desired) p r)
            ≡ set_subscription (fill (merge_subscription live desired)) p (form.view r)) where
      pub view-kept : (found : Option R) → form.view (kept found) ≡ ensured (viewed form found)
      view-kept none = made
      view-kept (some live) = elim (Bool-cases (strategy == create)) [
        | inl same ↦ rw same refl
        | inr differ ↦ rw differ (
            view-set_all form
              (set_subscription (fill (merge_subscription (form.view live) desired)))
              (merge_subscription (form.view live) desired) (sets (form.view live))
              (supported u.supports (diff_subscription (form.view live) desired)) live)
      ]

      module _ (filled : IsFilled fill desired)
          (fills : (live : Subscription)
            → HasMaps live
            → IsFilled fill (merge_subscription live desired))
          (hd : HasMaps desired) where
        -- What drifts afterwards is not supported.
        settled :
            (found : Option R)
            → ((live : Subscription) → viewed form found ≡ some live → HasMaps live)
            → (strategy == create) ≡ false
            → supported u.supports (diff_subscription (form.view (kept found)) desired) ≡ []
        settled none hl differ = rw (made, diff_subscription-IsFilled fill desired filled) refl
        settled (some live) hl differ =
            let maps = hl (form.view live) refl in
            rw (view-kept (some live), differ)
              (ap (supported u.supports) (
                  diff_subscription-set_all fill u.supports (form.view live) desired
                    (fills (form.view live) maps) maps hd)
                ∙ supported-refused u.supports (diff_subscription (form.view live) desired))

        pub kept_again :
            (found : Option R)
            → ((live : Subscription) → viewed form found ≡ some live → HasMaps live)
            → kept (some (kept found)) ≡ kept found
        kept_again found hl = elim (Bool-cases (strategy == create)) [
          | inl same ↦ rw same refl
          | inr differ ↦ ground (arith, settled found hl differ)
        ]
