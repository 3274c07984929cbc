-- ===== src/Provisioner/Labels/Laws.antt =====
-- What merged labels hold, and when the configured labels are a subset of the live ones.
use gcp_emulator_provisioner.Prelude.{
  ◌≡◌, refl, ◌∙◌, ap, ◌↔◌, true, Option, none, some, [], ◌∷◌, arith, Text, Dict, lookup,
  get_or_empty, copy, DistinctKeys, DistinctKeys-copy, overlay, lookup-copy,
}
use gcp_emulator_provisioner.Provisioner.Labels.{labels_subset, merge_labels}

-- The labels of `want` that are not blank stand in `got` with their value, and the blank ones stand
-- there blank or not at all.
abbrev pub Agrees : Dict → Dict → Type 0
Agrees want got = (k v : Text) → lookup k want ≡ some v → get_or_empty k got ≡ v

overlay-none : (o : Option Text) → overlay o none ≡ o
overlay-none none = refl
overlay-none (some v) = refl

copy-nil : (j : Text) (d : Dict) → DistinctKeys d → lookup j (copy [] d) ≡ lookup j d
copy-nil j d h = lookup-copy j [] d h ∙ (unfold lookup in overlay-none (lookup j d))

-- A merged map has each configured label with its configured value, and every other label as it
-- was on the resource.
pub lookup-merge_labels :
    (j : Text) (current configured : Dict)
    → DistinctKeys current
    → DistinctKeys configured
    → lookup j (merge_labels current configured) ≡ overlay (lookup j configured) (lookup j current)
unfolding merge_labels
lookup-merge_labels j current [] hc hd = unfold lookup in refl
lookup-merge_labels j current ((k, v) ∷ configured) hc hd =
    lookup-copy j (copy [] current) ((k, v) ∷ configured) hd
    ∙ ap (λ o. overlay (lookup j ((k, v) ∷ configured)) o) (copy-nil j current hc)

subset_of_Agrees :
    (want got : Dict) → DistinctKeys want → Agrees want got → labels_subset want got ≡ true
unfolding labels_subset lookup
subset_of_Agrees [] got d h = refl
subset_of_Agrees ((k, v) ∷ want) got (fresh, d) h =
    ground (arith, h k v, subset_of_Agrees want got d (λ j w e. h j w (ground arith)))

agrees_of_subset :
    (want got : Dict) (k v : Text)
    → labels_subset want got ≡ true
    → lookup k want ≡ some v
    → get_or_empty k got ≡ v
unfolding labels_subset lookup
agrees_of_subset [] got k v h e = cc
agrees_of_subset ((j, w) ∷ want) got k v h e = ground (arith, agrees_of_subset want got k v)

-- The loop decides that the maps agree, where a missing key reads as the empty string.
pub labels_subset_iff :
    (want got : Dict) → DistinctKeys want → (labels_subset want got ≡ true) ↔ Agrees want got
labels_subset_iff want got d =
    (λ h k v. agrees_of_subset want got k v h, subset_of_Agrees want got d)

-- Labels that were merged in are found again by the next comparison.
pub labels_subset-merge_labels :
    (current configured : Dict)
    → DistinctKeys current
    → DistinctKeys configured
    → labels_subset configured (merge_labels current configured) ≡ true
labels_subset-merge_labels current configured hc hd =
    subset_of_Agrees configured (merge_labels current configured) hd
      λ k v e. unfold get_or_empty in ground (arith, lookup-merge_labels k current configured hc hd)

pub labels_subset_refl : (d : Dict) → DistinctKeys d → labels_subset d d ≡ true
labels_subset_refl d h = subset_of_Agrees d d h λ k v e. unfold get_or_empty in ground arith

-- Merging keeps the keys of a map distinct.
pub DistinctKeys-merge_labels :
    (current configured : Dict)
    → DistinctKeys current
    → DistinctKeys (merge_labels current configured)
unfolding merge_labels
DistinctKeys-merge_labels current [] h = h
DistinctKeys-merge_labels current ((k, v) ∷ configured) h =
    DistinctKeys-copy (copy [] current) ((k, v) ∷ configured) (DistinctKeys-copy [] current tt)
