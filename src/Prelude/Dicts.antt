-- ===== src/Prelude/Dicts.antt =====
-- Go's `map[string]string` as an association list in iteration order; `nil` is the empty one.
use mathlib.Core.Path.{◌≡◌, refl}
use mathlib.Core.Logic.{inl, inr}
use mathlib.Core.Option.{Option, none, some}
use mathlib.Core.List.{List, [], ◌∷◌}
use native.Mathlib.Omega.{arith}
use gcp_emulator_provisioner.Prelude.Tests.{if◌then◌else◌, Bool-cases}
use gcp_emulator_provisioner.Prelude.Words.{Text, ◌==◌}

abbrev pub Dict : Type 0
Dict = List (Text × Text)

unfoldable pub lookup : Text → Dict → Option Text
lookup k [] = none
lookup k ((j, v) ∷ d) = if j == k then some v else lookup k d

-- `d[k]` of Go, which reads a missing key as the empty string
unfoldable pub get_or_empty : Text → Dict → Text
unfolding lookup
get_or_empty k d = elim (lookup k d) [ none ↦ [] | some v ↦ v ]

-- `d[k] = v`
unfoldable pub insert : Text → Text → Dict → Dict
insert k v [] = (k, v) ∷ []
insert k v ((j, w) ∷ d) = if j == k then (j, v) ∷ d else (j, w) ∷ insert k v d

-- `maps.Copy(dst, src)`
unfoldable pub copy : Dict → Dict → Dict
unfolding insert
copy dst [] = dst
copy dst ((k, v) ∷ src) = copy (insert k v dst) src

abbrev pub DistinctKeys : Dict → Type 0
DistinctKeys [] = Unit
DistinctKeys ((k, v) ∷ d) = (lookup k d ≡ none) × DistinctKeys d

-- The value of `over` where it has the key, and that of `base` elsewhere.
abbrev pub overlay : Option Text → Option Text → Option Text
overlay none base = base
overlay (some v) base = some v

pub lookup-insert :
    (k j : Text) (v : Text) (d : Dict)
    → lookup j (insert k v d) ≡ (if k == j then some v else lookup j d)
unfolding lookup insert
lookup-insert k j v [] = refl
lookup-insert k j v ((i, w) ∷ d) = ground (arith, lookup-insert k j v d)

pub lookup-copy :
    (j : Text) (dst src : Dict)
    → DistinctKeys src
    → lookup j (copy dst src) ≡ overlay (lookup j src) (lookup j dst)
unfolding lookup copy
lookup-copy j dst [] h = refl
lookup-copy j dst ((k, v) ∷ src) (fresh, h) =
    ground (arith, lookup-copy j (insert k v dst) src h, lookup-insert k j v dst)

pub DistinctKeys-insert : (k v : Text) (d : Dict) → DistinctKeys d → DistinctKeys (insert k v d)
unfolding lookup insert
DistinctKeys-insert k v [] h = (refl, tt)
DistinctKeys-insert k v ((j, w) ∷ d) (fresh, h) = elim (Bool-cases (j == k)) [
  | inl same ↦ rw same (fresh, h)
  | inr differ ↦ rw differ (ground (arith, lookup-insert k j v d), DistinctKeys-insert k v d h)
]

pub DistinctKeys-copy : (dst src : Dict) → DistinctKeys dst → DistinctKeys (copy dst src)
unfolding copy
DistinctKeys-copy dst [] h = h
DistinctKeys-copy dst ((k, v) ∷ src) h =
    DistinctKeys-copy (insert k v dst) src (DistinctKeys-insert k v dst h)
