-- ===== src/Provisioner/Tests/Masks.antt =====
-- The theorems on masks, labels and the comparisons at concrete data.
use gcp_emulator_provisioner.Prelude.{
  ◌≡◌, ◌↔◌, refl, true, none, some, [], ◌∷◌, List, Text, Dict, codes, ok, text_dec, lookup, Option,
}
use gcp_emulator_provisioner.Prelude.Int.{pos}
use gcp_emulator_provisioner.Client.Resources
use gcp_emulator_provisioner.Client.Resources.{
  Wrapper, OidcToken, FieldPath, ack_deadline_seconds, labels, dead_letter_policy, retry_policy,
  push_config, wrapper_unset, wrapper_none, message_retention_duration,
}
use gcp_emulator_provisioner.Client.Errors.{Error, plain}
use gcp_emulator_provisioner.Provisioner.Effects.{Run, write_log, unsupported, subscription}
use gcp_emulator_provisioner.Provisioner.Labels.{labels_subset, merge_labels}
use gcp_emulator_provisioner.Provisioner.Labels.Laws.{
  lookup-merge_labels, Agrees, labels_subset_iff, labels_subset-merge_labels,
}
use gcp_emulator_provisioner.Provisioner.Update.{apply_paths}
use gcp_emulator_provisioner.Provisioner.Update.Masks.{set_all, supported, refused}
use gcp_emulator_provisioner.Provisioner.Update.Laws.{Endpoint, respond, apply_paths-eq-outcome}
use gcp_emulator_provisioner.Provisioner.Topics.{diff_topic, merge_topic}
use gcp_emulator_provisioner.Provisioner.Topics.Laws.{set_topic, diff_topic-set_all}
use gcp_emulator_provisioner.Provisioner.Gaps.{diff_topic_blank}
use gcp_emulator_provisioner.Samples.{plain_runtime}
use gcp_emulator_provisioner.Provisioner.Tests.Worlds.{
  supports_most, emulator_error, emulator_refuses,
}

-- An endpoint that notes the paths that were applied
abbrev recorder : Endpoint (List FieldPath)
recorder = record { supports = supports_most; set = λ p w. p ∷ w; refusal = λ mask. emulator_error }

abbrev idle : Run (List FieldPath)
idle = record { world = []; log = [] }

abbrev three_paths : List FieldPath
three_paths = ack_deadline_seconds ∷ dead_letter_policy ∷ labels ∷ []

apply_paths-eq-outcome_example :
    apply_paths plain_runtime
      (respond recorder)
      (λ p. write_log (unsupported subscription (codes "orders") p))
      three_paths
      idle
    ≡ (
      ok tt,
      record {
        world = labels ∷ ack_deadline_seconds ∷ [];
        log = unsupported subscription (codes "orders") dead_letter_policy ∷ [];
      },
    )
apply_paths-eq-outcome_example =
    apply_paths-eq-outcome plain_runtime recorder (λ p. unsupported subscription (codes "orders") p)
      (respond recorder) (λ p. write_log (unsupported subscription (codes "orders") p))
      (λ w. Unit {0}) (λ p w h. tt) (λ mask s h. refl) (λ p s. refl) (λ mask. emulator_refuses)
      three_paths idle tt

-- The labels cannot be set.
abbrev no_labels : FieldPath → Option Error
no_labels labels = some (plain (codes "unavailable"))
no_labels p = none

abbrev four_paths : List FieldPath
four_paths = dead_letter_policy ∷ ack_deadline_seconds ∷ labels ∷ push_config ∷ []

abbrev live_labels : Dict
live_labels = (codes "owner", codes "ops") ∷ (codes "env", codes "dev") ∷ []

abbrev wanted_labels : Dict
wanted_labels = (codes "env", codes "test") ∷ []

live_distinct : lookup (codes "owner") ((codes "env", codes "dev") ∷ []) ≡ none
unfolding lookup text_dec
live_distinct = refl

one_key : (k : Text) → lookup k [] ≡ none
unfolding lookup
one_key k = refl

lookup-merge_labels_example :
    lookup (codes "env") (merge_labels live_labels wanted_labels) ≡ some (codes "test")
unfolding lookup text_dec
lookup-merge_labels_example =
    lookup-merge_labels (codes "env") live_labels wanted_labels
      (live_distinct, (one_key (codes "env"), tt)) (one_key (codes "env"), tt)

labels_subset_iff_example :
    (labels_subset wanted_labels live_labels ≡ true) ↔ Agrees wanted_labels live_labels
labels_subset_iff_example = labels_subset_iff wanted_labels live_labels (one_key (codes "env"), tt)

labels_subset-merge_labels_example :
    labels_subset wanted_labels (merge_labels live_labels wanted_labels) ≡ true
labels_subset-merge_labels_example =
    labels_subset-merge_labels live_labels wanted_labels
      (live_distinct, (one_key (codes "env"), tt)) (one_key (codes "env"), tt)

abbrev live_topic : Resources.Topic
live_topic = record { name = codes "orders"; labels = live_labels; message_retention = pos 0 }

abbrev wanted_topic : Resources.Topic
wanted_topic = record {
  name = codes "orders";
  labels = wanted_labels;
  message_retention = pos 600_000_000_000;
}

diff_topic-set_all_example :
    diff_topic
      (set_all
        (set_topic (merge_topic live_topic wanted_topic))
        (supported supports_most (diff_topic live_topic wanted_topic))
        live_topic)
      wanted_topic
    ≡ refused supports_most (diff_topic live_topic wanted_topic)
diff_topic-set_all_example =
    diff_topic-set_all supports_most live_topic wanted_topic
      (live_distinct, (one_key (codes "env"), tt)) (one_key (codes "env"), tt)

abbrev blank_topic : Resources.Topic
blank_topic = record {
  name = codes "orders";
  labels = (codes "legacy", []) ∷ [];
  message_retention = pos 0;
}

not_there : lookup (codes "legacy") live_labels ≡ none
unfolding lookup text_dec
not_there = refl

diff_topic_blank_example : diff_topic live_topic blank_topic ≡ []
diff_topic_blank_example = diff_topic_blank live_topic blank_topic refl ((refl, not_there), tt)
