-- ===== src/Provisioner/Tests/Gaps.antt =====
-- The theorems on the comparison of subscriptions at concrete data.
use gcp_emulator_provisioner.Prelude.{
  ◌≡◌, ◌≢◌, refl, false, none, some, [], ◌∷◌, Text, Dict, codes, text_dec, lookup, arith, Option,
  if◌then◌else◌,
}
use gcp_emulator_provisioner.Prelude.Int.{pos}
use gcp_emulator_provisioner.Client.Resources
use gcp_emulator_provisioner.Client.Resources.{Wrapper, OidcToken, wrapper_unset, wrapper_none}
use gcp_emulator_provisioner.Provisioner.Labels.{labels_subset, merge_labels}
use gcp_emulator_provisioner.Provisioner.Update.Masks.{set_all, supported, refused}
use gcp_emulator_provisioner.Provisioner.Subscriptions.Diff.{diff_subscription}
use gcp_emulator_provisioner.Provisioner.Subscriptions.Ensure.{merge_subscription}
use gcp_emulator_provisioner.Provisioner.Subscriptions.Drifts.{
  set_subscription, HasMaps, merge_subscription-HasMaps,
}
use gcp_emulator_provisioner.Provisioner.Subscriptions.Laws.{
  diff_subscription-set_all, as_sent-IsFilled,
}
use gcp_emulator_provisioner.Provisioner.Gaps.{
  same_target, diff_subscription_retry, diff_subscription-push,
}
use gcp_emulator_provisioner.Provisioner.Tests.Worlds.{supports_most}

abbrev wanted_labels : Dict
wanted_labels = (codes "env", codes "test") ∷ []

one_key : (k : Text) → lookup k [] ≡ none
unfolding lookup
one_key k = refl

abbrev push_to : Text → Wrapper → Option OidcToken → Resources.PushConfig
push_to url wrapper token = record {
  endpoint = url;
  attributes = [];
  oidc_token = token;
  wrapper = wrapper;
  write_metadata = false;
}

abbrev retrying : Resources.PushConfig → Resources.RetryPolicy → Resources.Subscription
retrying push retry = record {
  name = codes "billing";
  topic = codes "orders";
  ack_deadline = pos 0;
  message_retention = pos 0;
  retain_acked_messages = none;
  enable_message_ordering = none;
  enable_exactly_once_delivery = none;
  filter = [];
  expiration_set = false;
  expiration_ttl = pos 0;
  labels = wanted_labels;
  push = some push;
  dead_letter = none;
  retry = some retry;
}

abbrev live_push : Resources.PushConfig
live_push =
    push_to (codes "http://a") wrapper_none
      (some (record { service_account_email = codes "a@b"; audience = [] }))

abbrev wanted_push : Resources.PushConfig
wanted_push = push_to (codes "http://b") wrapper_unset none

abbrev live_retry : Resources.RetryPolicy
live_retry = record { minimum_backoff = pos 10; maximum_backoff = pos 600 }

abbrev wanted_retry : Resources.RetryPolicy
wanted_retry = record { minimum_backoff = pos 10; maximum_backoff = pos 0 }

abbrev live_subscription : Resources.Subscription
live_subscription = retrying live_push live_retry

abbrev wanted_subscription : Resources.Subscription
wanted_subscription = retrying wanted_push wanted_retry

live_maps : HasMaps live_subscription
live_maps = record { labels = (one_key (codes "env"), tt); attributes = tt }

wanted_maps : HasMaps wanted_subscription
wanted_maps = record { labels = (one_key (codes "env"), tt); attributes = tt }

diff_subscription-set_all_example :
    diff_subscription
      (set_all
        (set_subscription (merge_subscription live_subscription wanted_subscription))
        (supported supports_most (diff_subscription live_subscription wanted_subscription))
        live_subscription)
      wanted_subscription
    ≡ refused supports_most (diff_subscription live_subscription wanted_subscription)
diff_subscription-set_all_example =
    diff_subscription-set_all (λ d. d) supports_most live_subscription wanted_subscription
      (as_sent-IsFilled _
        (merge_subscription-HasMaps live_subscription wanted_subscription live_maps wanted_maps))
      live_maps wanted_maps

diff_subscription_retry_example : diff_subscription live_subscription wanted_subscription ≢ []
diff_subscription_retry_example =
    diff_subscription_retry live_subscription wanted_subscription live_retry wanted_retry refl refl
      refl (λ e. ground arith)

diff_subscription-push_example :
    (set_all
      (set_subscription (merge_subscription live_subscription wanted_subscription))
      (diff_subscription live_subscription wanted_subscription)
      live_subscription).push
    ≡ (if same_target live_push wanted_push
        then some live_push
        else some (record wanted_push {
          attributes = merge_labels live_push.attributes wanted_push.attributes;
          oidc_token = none;
          wrapper = wrapper_unset;
        }))
diff_subscription-push_example =
    diff_subscription-push live_subscription wanted_subscription live_push wanted_push refl refl
      refl refl

-- The configured endpoint differs here, so the live token is gone.
token_gone : same_target live_push wanted_push ≡ false
unfolding text_dec labels_subset
token_gone = refl
