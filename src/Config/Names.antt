-- ===== src/Config/Names.antt =====
-- The name patterns of internal/config/config.go. Every class in them is ASCII, so a match on the
-- runes of a text is a match on its bytes.
use gcp_emulator_provisioner.Prelude.{
  ℕ, Bool, false, ◌&&◌, ◌||◌, [], ◌∷◌, Text, leb, nat_eq, length, all, any,
}
use gcp_emulator_provisioner.Config.GoTime.{is_digit}

-- `containsNullByte`: `strings.ContainsRune(s, '\x00')`
unfoldable pub contains_null_byte : Text → Bool
contains_null_byte s = any (λ c. nat_eq c 0) s

abbrev pub is_lower : ℕ → Bool
is_lower c = leb b'a' c && leb c b'z'

abbrev pub is_upper : ℕ → Bool
is_upper c = leb b'A' c && leb c b'Z'

abbrev pub is_letter : ℕ → Bool
is_letter c = is_upper c || is_lower c

-- `[A-Za-z0-9\-_.~+%]`
unfoldable pub is_name_char : ℕ → Bool
is_name_char c =
    is_letter c
    || is_digit c
    || nat_eq c b'-'
    || nat_eq c b'_'
    || nat_eq c b'.'
    || nat_eq c b'~'
    || nat_eq c b'+'
    || nat_eq c b'%'

abbrev between : ℕ → ℕ → Text → Bool
between lo hi s = leb lo (length s) && leb (length s) hi

-- `resourceNamePattern`: `^[A-Za-z][A-Za-z0-9\-_.~+%]{2,254}$`
unfoldable pub matches_resource_name : Text → Bool
unfolding is_name_char
matches_resource_name [] = false
matches_resource_name (c ∷ s) = is_letter c && between 2 254 s && all is_name_char s

unfoldable pub is_label_char : ℕ → Bool
is_label_char c = is_lower c || is_digit c || nat_eq c b'-'

-- A run of `[a-z0-9-]` that ends in `[a-z0-9]`
unfoldable pub ends_alphanumeric : Text → Bool
unfolding is_label_char
ends_alphanumeric [] = false
ends_alphanumeric (c ∷ []) = is_lower c || is_digit c
ends_alphanumeric (c ∷ s) = is_label_char c && ends_alphanumeric s

-- `bucketNamePattern`: `^[a-z0-9][a-z0-9-]{1,61}[a-z0-9]$`
unfoldable pub matches_bucket_name : Text → Bool
unfolding ends_alphanumeric
matches_bucket_name [] = false
matches_bucket_name (c ∷ s) = (is_lower c || is_digit c) && between 2 62 s && ends_alphanumeric s

-- `projectIDPattern` and `accountPattern`: `^[a-z][a-z0-9-]{4,28}[a-z0-9]$`
unfoldable pub matches_project_id : Text → Bool
unfolding ends_alphanumeric
matches_project_id [] = false
matches_project_id (c ∷ s) = is_lower c && between 5 29 s && ends_alphanumeric s
