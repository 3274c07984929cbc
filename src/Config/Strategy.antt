-- ===== src/Config/Strategy.antt =====
-- The update strategies of internal/config/config.go and how one resource's strategy is resolved.
use gcp_emulator_provisioner.Prelude.{
  ◌≡◌, refl, ◌⊎◌, inl, inr, ap, ◌++◌, Bool, true, false, ◌||◌, List, [], ◌∷◌, arith, Text, codes,
  ◌==◌, is_empty, if◌then◌else◌, all,
}

abbrev pub create : Text
create = codes "create"

abbrev pub update : Text
update = codes "update"

-- A look-up in the map `validStrategies`.
unfoldable pub valid_strategy : Text → Bool
valid_strategy s = is_empty s || s == create || s == update

unfoldable pub effective_strategy : List Text → Text
effective_strategy [] = update
effective_strategy (s ∷ strategies) = if is_empty s then effective_strategy strategies else s

unfoldable pub effective_credential_strategy : Text → Text
effective_credential_strategy strategy = if is_empty strategy then create else strategy

-- The first value of a list that is not empty, or "update" where all are.
abbrev pub FirstOf : List Text → Text → Type 0
FirstOf strategies s =
    ((all is_empty strategies ≡ true) × (s ≡ update))
    ⊎ ((before : List Text) × (after : List Text) × (strategies ≡ before ++ (s ∷ after))
        × (all is_empty before ≡ true)
        × (is_empty s ≡ false))

effective_strategy-FirstOf :
    (strategies : List Text) → FirstOf strategies (effective_strategy strategies)
unfolding effective_strategy
effective_strategy-FirstOf [] = inl (refl, refl)
effective_strategy-FirstOf ([] ∷ strategies) = elim (effective_strategy-FirstOf strategies) [
  | inl none_set ↦ inl none_set
  | inr (before, after, e, empty, set) ↦ inr ([] ∷ before, after, ap (λ l. [] ∷ l) e, empty, set)
]
effective_strategy-FirstOf ((c ∷ s) ∷ strategies) = inr ([], strategies, refl, refl, refl)

strategy_listed :
    (strategies : List Text)
    → all valid_strategy strategies ≡ true
    → (effective_strategy strategies ≡ create) ⊎ (effective_strategy strategies ≡ update)
unfolding effective_strategy valid_strategy
strategy_listed [] h = inr refl
strategy_listed ([] ∷ strategies) h = strategy_listed strategies (ground arith)
strategy_listed ((c ∷ s) ∷ strategies) h = ground arith

-- A resource's strategy, resolved from values that pass validation, is "create" or "update", and it
-- is the first of the values that is not empty, or "update" where all are.
pub effective_strategy_cases :
    (strategies : List Text)
    → all valid_strategy strategies ≡ true
    → ((effective_strategy strategies ≡ create) ⊎ (effective_strategy strategies ≡ update))
      × FirstOf strategies (effective_strategy strategies)
effective_strategy_cases strategies h =
    (strategy_listed strategies h, effective_strategy-FirstOf strategies)
