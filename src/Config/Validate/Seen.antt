-- ===== src/Config/Validate/Seen.antt =====
-- The maps of names that were seen, which validation threads through its loops.
use gcp_emulator_provisioner.Prelude.{
  ◌≡◌, refl, true, false, ◌||◌, List, [], ◌∷◌, ◌++◌, arith, Text,
}
use gcp_emulator_provisioner.Config.Validate.Subscriptions.{member}

-- The map after a list of names was added in order
abbrev pub seen_after : List Text → List Text → List Text
seen_after seen [] = seen
seen_after seen (x ∷ xs) = seen_after (x ∷ seen) xs

-- Each name is new to the map when its turn comes.
abbrev pub Fresh : List Text → List Text → Type 0
Fresh seen [] = Unit
Fresh seen (x ∷ xs) = (member x seen ≡ false) × Fresh (x ∷ seen) xs

-- No name occurs twice.
abbrev pub Distinct : List Text → Type 0
Distinct [] = Unit
Distinct (x ∷ xs) = (member x xs ≡ false) × Distinct xs

Fresh-member :
    (y : Text) (seen xs : List Text) → Fresh seen xs → member y seen ≡ true → member y xs ≡ false
Fresh-member y seen [] h m = refl
Fresh-member y seen (x ∷ xs) h m = ground (arith, h.0, Fresh-member y (x ∷ seen) xs h.1)

pub Fresh-Distinct : (seen xs : List Text) → Fresh seen xs → Distinct xs
Fresh-Distinct seen [] h = tt
Fresh-Distinct seen (x ∷ xs) h =
    (Fresh-member x (x ∷ seen) xs h.1 (ground arith), Fresh-Distinct (x ∷ seen) xs h.1)

pub Fresh-append :
    (seen xs ys : List Text) → Fresh seen xs → Fresh (seen_after seen xs) ys → Fresh seen (xs ++ ys)
Fresh-append seen [] ys h k = k
Fresh-append seen (x ∷ xs) ys h k = (h.0, Fresh-append (x ∷ seen) xs ys h.1 k)

pub seen_after-append :
    (seen xs ys : List Text) → seen_after (seen_after seen xs) ys ≡ seen_after seen (xs ++ ys)
seen_after-append seen [] ys = refl
seen_after-append seen (x ∷ xs) ys = seen_after-append (x ∷ seen) xs ys

pub member-seen_after :
    (y : Text) (seen xs : List Text)
    → member y (seen_after seen xs) ≡ (member y seen || member y xs)
member-seen_after y seen [] = ground arith
member-seen_after y seen (x ∷ xs) = ground (arith, member-seen_after y (x ∷ seen) xs)
