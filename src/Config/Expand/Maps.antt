-- ===== src/Config/Expand/Maps.antt =====
-- What `expandMap` of internal/config/config.go makes of a map.
use gcp_emulator_provisioner.Prelude.{
  ◌≡◌, refl, ap, ◌∙◌, Option, none, some, List, [], ◌∷◌, map, arith, Text, Dict, ◌==◌,
  if◌then◌else◌, lookup, insert, lookup-insert, overlay,
}
use gcp_emulator_provisioner.Config.Schema.{Config}
use gcp_emulator_provisioner.Config.Expand.{
  expand_env_vars, expand_entries, expand_map, expand_config,
}
use gcp_emulator_provisioner.Config.Expand.Texts.{maps, expand_config-maps}

-- What each map holds at each key
abbrev pub lookups : List Dict → List (Text → Option Text)
lookups ms = map {B = Text → Option Text} (λ m j. lookup j m) ms

overlay-overlay : (a b c : Option Text) → overlay a (overlay b c) ≡ overlay (overlay a b) c
overlay-overlay none b c = refl
overlay-overlay (some v) b c = refl

module _ (lookup_env : Text → Option Text) where
  -- The expanded value of the last entry whose expanded key is the one looked for
  abbrev pub last_value : Text → Dict → Option Text
  last_value j [] = none
  last_value j ((k, v) ∷ m) =
      overlay (last_value j m)
        (if expand_env_vars lookup_env k == j then some (expand_env_vars lookup_env v) else none)

  lookup-expand_entries :
      (j : Text) (out m : Dict)
      → lookup j (expand_entries lookup_env out m) ≡ overlay (last_value j m) (lookup j out)
  unfolding expand_entries
  lookup-expand_entries j out [] = refl
  lookup-expand_entries j out ((k, v) ∷ m) =
      lookup-expand_entries j
        (insert (expand_env_vars lookup_env k) (expand_env_vars lookup_env v) out) m
      ∙ ap (overlay (last_value j m)) (
          lookup-insert (expand_env_vars lookup_env k) j (expand_env_vars lookup_env v) out
          ∙ ground arith)
      ∙ overlay-overlay (last_value j m)
          (if expand_env_vars lookup_env k == j then some (expand_env_vars lookup_env v) else none)
          (lookup j out)

  lookup-expand_map : (j : Text) (m : Dict) → lookup j (expand_map lookup_env m) ≡ last_value j m
  unfolding expand_map lookup
  lookup-expand_map j m = lookup-expand_entries j [] m ∙ overlay_none (last_value j m)
    where
      overlay_none : (o : Option Text) → overlay o none ≡ o
      overlay_none none = refl
      overlay_none (some v) = refl

  abbrev pub last_values : List Dict → List (Text → Option Text)
  last_values ms = map {B = Text → Option Text} (λ m j. last_value j m) ms

  lookups-expand_map : (ms : List Dict) → lookups (map (expand_map lookup_env) ms) ≡ last_values ms
  lookups-expand_map [] = refl
  lookups-expand_map (m ∷ ms) = λ i. (λ j. lookup-expand_map j m i) ∷ lookups-expand_map ms i

  -- Each map of an expanded configuration has at a key the last value that the map of the
  -- configuration has under it, key and value expanded.
  pub expand_config-lookups :
      (cfg : Config) → lookups (maps (expand_config lookup_env cfg)) ≡ last_values (maps cfg)
  expand_config-lookups cfg =
      ap lookups (expand_config-maps lookup_env cfg) ∙ lookups-expand_map (maps cfg)
