-- ===== src/Client/Paths/Laws.antt =====
-- From the path of a resource in internal/client/pubsub.go back to its name.
use mathlib.Core.List.{append_assoc}
use gcp_emulator_provisioner.Prelude.{
  ℕ, ◌≡◌, refl, sym, ◌∙◌, ap, true, false, none, some, [], ◌∷◌, ◌++◌, arith, Text, codes, nat_eq,
  all,
}
use gcp_emulator_provisioner.Config.Names.{matches_resource_name, is_name_char}
use gcp_emulator_provisioner.Client.Paths.{
  project_path, topic_path, subscription_path, after_last_slash, or_whole, short_name,
}

after_last_slash-append :
    (prefix name : Text)
    → after_last_slash name ≡ none
    → after_last_slash (prefix ++ b'/' ∷ name) ≡ some name
unfolding after_last_slash
after_last_slash-append [] name h = rw h refl
after_last_slash-append (c ∷ prefix) name h = rw (after_last_slash-append prefix name h) refl

is_name_char-slash : (c : ℕ) → is_name_char c ≡ true → nat_eq c b'/' ≡ false
unfolding is_name_char
is_name_char-slash c h = ground arith

no_slash : (s : Text) → all is_name_char s ≡ true → after_last_slash s ≡ none
unfolding after_last_slash
no_slash [] h = refl
no_slash (c ∷ s) h = ground (arith, no_slash s, is_name_char-slash c)

valid_name : (name : Text) → matches_resource_name name ≡ true → after_last_slash name ≡ none
unfolding matches_resource_name
valid_name [] h = cc
valid_name (c ∷ s) h = no_slash (c ∷ s) (unfold is_name_char in ground arith)

short_name_of : (path name : Text) → after_last_slash path ≡ some name → short_name path ≡ name
unfolding short_name
short_name_of path name h = ap (or_whole path) h

short_name-append :
    (front kind name : Text)
    → after_last_slash name ≡ none
    → short_name (front ++ (kind ++ b'/' ∷ []) ++ name) ≡ name
short_name-append front kind name h = short_name_of (front ++ (kind ++ b'/' ∷ []) ++ name) name (
    ap (λ t. after_last_slash (t ++ name)) (sym (append_assoc front kind (b'/' ∷ [])))
    ∙ ap after_last_slash (append_assoc (front ++ kind) (b'/' ∷ []) name)
    ∙ after_last_slash-append (front ++ kind) name h)

-- The short name of the path of a topic or subscription whose name passed validation is that name.
pub short_name-topic_path :
    (project_id name : Text)
    → matches_resource_name name ≡ true
    → (short_name (topic_path project_id name) ≡ name)
      × (short_name (subscription_path project_id name) ≡ name)
unfolding topic_path subscription_path
short_name-topic_path project_id name h = (
  short_name-append (project_path project_id) (codes "/topics") name (valid_name name h),
  short_name-append (project_path project_id) (codes "/subscriptions") name (valid_name name h),
)
