-- ===== src/Client/Paths.antt =====
-- Names and paths of resources in internal/client/pubsub.go.
pub mod Laws
use gcp_emulator_provisioner.Prelude.{
  Option, none, some, List, [], ◌∷◌, ◌++◌, Text, codes, nat_eq, contains_text, if◌then◌else◌,
}

unfoldable pub project_path : Text → Text
project_path project_id = codes "projects/" ++ project_id

unfoldable pub topic_path : Text → Text → Text
topic_path project_id name = project_path project_id ++ codes "/topics/" ++ name

unfoldable pub subscription_path : Text → Text → Text
subscription_path project_id name = project_path project_id ++ codes "/subscriptions/" ++ name

-- What stands behind the last slash, which `strings.LastIndex` finds
unfoldable pub after_last_slash : Text → Option Text
after_last_slash [] = none
after_last_slash (c ∷ s) = elim (after_last_slash s) [
  | some t ↦ some t
  | none ↦ if nat_eq c b'/' then some s else none
]

abbrev pub or_whole : Text → Option Text → Text
or_whole path none = path
or_whole path (some t) = t

unfoldable pub short_name : Text → Text
short_name path = or_whole path (after_last_slash path)
