-- ===== src/Provisioner/Labels.antt =====
-- `labelsSubset` and `mergeLabels` of internal/provisioner/topics.go.
pub mod Laws
use gcp_emulator_provisioner.Prelude.{
  Bool, true, false, ◌&&◌, [], ◌∷◌, Text, Dict, ◌==◌, get_or_empty, copy, if◌then◌else◌,
}

unfoldable pub labels_subset : Dict → Dict → Bool
unfolding get_or_empty
labels_subset [] got = true
labels_subset ((k, v) ∷ want) got =
    if get_or_empty k got == v then labels_subset want got else false

unfoldable pub merge_labels : Dict → Dict → Dict
unfolding copy
merge_labels current [] = current
merge_labels current ((k, v) ∷ configured) = copy (copy [] current) ((k, v) ∷ configured)
