-- ===== src/Config/Validate/Resources.antt =====
-- The checks of topics, buckets, credentials and the whole configuration in
-- internal/config/config.go.
use gcp_emulator_provisioner.Prelude.{
  ℕ, suc, Bool, true, not, ◌&&◌, ◌||◌, Option, none, some, List, [], ◌∷◌, ◌++◌, Text, codes,
  is_empty, ok, err, ◌>>=◌, ◌>>◌, reject, ◌==◌,
}
use gcp_emulator_provisioner.Config.Schema.{
  Topic, Subscription, DeadLetter, Bucket, Credential, Config,
}
use gcp_emulator_provisioner.Config.Names.{
  contains_null_byte, matches_bucket_name, matches_project_id,
}
use gcp_emulator_provisioner.Config.Problem.{
  Location, field, index, null_byte, required, invalid_name, duplicate, undeclared_dead_letter,
  invalid_storage_class, invalid_account, invalid_url, relative_url, invalid_project_id,
}
use gcp_emulator_provisioner.Config.Validate.Fields.{
  Checked, Check, problem_at, ◌▸◌, validate_strategy, min_message_retention, max_message_retention,
  validate_labels, validate_duration_range,
}
use gcp_emulator_provisioner.Config.Validate.Subscriptions.{
  member, validate_name, validate_subscriptions,
}
use gcp_emulator_provisioner.Runtime.{Runtime, Url}

abbrev pub topics_at : Location
topics_at = field "pubsub" ∷ field "topics" ∷ []

abbrev pub declared_target : List Text → Option DeadLetter → Bool
declared_target declared none = true
declared_target declared (some dl) = member dl.topic declared

abbrev target_of : Option DeadLetter → Text
target_of none = []
target_of (some dl) = dl.topic

unfoldable pub validate_targets_of : Location → ℕ → List Subscription → List Text → Check
validate_targets_of at j [] declared = ok tt
validate_targets_of at j (s ∷ subs) declared = do
  reject (not (declared_target declared s.dead_letter)) (
      problem_at
        (at ++ (field "subscriptions" ∷ index j ∷ field "dead_letter" ∷ field "topic" ∷ []))
        (undeclared_dead_letter (target_of s.dead_letter)))
  validate_targets_of at (suc j) subs declared

unfoldable pub validate_targets_from : ℕ → List Topic → List Text → Check
validate_targets_from i [] declared = ok tt
validate_targets_from i (t ∷ topics) declared = do
  validate_targets_of (topics_at ++ (index i ∷ [])) 0 t.subscriptions declared
  validate_targets_from (suc i) topics declared

unfoldable pub validate_dead_letter_targets : List Topic → List Text → Check
validate_dead_letter_targets topics declared = validate_targets_from 0 topics declared

-- A look-up in the map `validStorageClasses`
unfoldable pub valid_storage_class : Text → Bool
valid_storage_class c =
    is_empty c
    || c == codes "STANDARD"
    || c == codes "NEARLINE"
    || c == codes "COLDLINE"
    || c == codes "ARCHIVE"
    || c == codes "MULTI_REGIONAL"
    || c == codes "REGIONAL"
    || c == codes "DURABLE_REDUCED_AVAILABILITY"

abbrev absolute : Url → Bool
absolute u = not (is_empty u.scheme || is_empty u.host)

module _ (rt : Runtime) where
  -- The first loop of `validateTopics`: the maps `names` and `subNames` as the loop leaves them.
  unfoldable pub validate_topics_from :
      ℕ → List Topic → List Text → List Text → Checked (List Text × List Text)
  validate_topics_from i [] names sub_names = ok (names, sub_names)
  validate_topics_from i (t ∷ topics) names sub_names = do
    let prefix = topics_at ++ (index i ∷ [])
    validate_strategy (prefix ▸ "strategy") t.strategy
    validate_name (prefix ▸ "name") t.name names
    validate_labels (prefix ▸ "labels") t.labels
    validate_duration_range rt (prefix ▸ "message_retention") t.message_retention
        min_message_retention max_message_retention
    sub_names' ← validate_subscriptions rt prefix t.subscriptions sub_names
    validate_topics_from (suc i) topics (t.name ∷ names) sub_names'

  unfoldable pub validate_topics : List Topic → Check
  validate_topics topics = do
    (names, sub_names) ← validate_topics_from 0 topics [] []
    validate_dead_letter_targets topics names

  unfoldable pub validate_buckets_from : ℕ → List Bucket → List Text → Check
  validate_buckets_from i [] names = ok tt
  validate_buckets_from i (b ∷ buckets) names = do
    let prefix = field "storage" ∷ field "buckets" ∷ index i ∷ []
    validate_strategy (prefix ▸ "strategy") b.strategy
    reject (is_empty b.name) (problem_at (prefix ▸ "name") required)
    reject (contains_null_byte b.name) (problem_at (prefix ▸ "name") null_byte)
    reject (not (matches_bucket_name b.name)) (problem_at (prefix ▸ "name") (invalid_name b.name))
    reject (member b.name names) (problem_at (prefix ▸ "name") (duplicate b.name))
    reject (contains_null_byte b.location) (problem_at (prefix ▸ "location") null_byte)
    reject (not (valid_storage_class (rt.to_upper b.storage_class)))
        (problem_at (prefix ▸ "storage_class") (invalid_storage_class b.storage_class))
    validate_buckets_from (suc i) buckets (b.name ∷ names)

  unfoldable pub validate_buckets : List Bucket → Check
  validate_buckets buckets = validate_buckets_from 0 buckets []

  unfoldable pub validate_token_uri : Location → Text → Check
  validate_token_uri at [] = ok tt
  validate_token_uri at (c ∷ s) = do
    reject (contains_null_byte (c ∷ s)) (problem_at at null_byte)
    (elim (rt.parse_url (c ∷ s)) [
      | none ↦ err (problem_at at (invalid_url (c ∷ s)))
      | some u ↦ reject (not (absolute u)) (problem_at at (relative_url (c ∷ s)))
    ])

  unfoldable pub validate_credentials_from : ℕ → List Credential → List Text → Check
  validate_credentials_from i [] paths = ok tt
  validate_credentials_from i (c ∷ creds) paths = do
    let prefix = field "credentials" ∷ index i ∷ []
    validate_strategy (prefix ▸ "strategy") c.strategy
    reject (is_empty c.path) (problem_at (prefix ▸ "path") required)
    reject (contains_null_byte c.path) (problem_at (prefix ▸ "path") null_byte)
    reject (member c.path paths) (problem_at (prefix ▸ "path") (duplicate c.path))
    reject (not (is_empty c.account) && not (matches_project_id c.account))
        (problem_at (prefix ▸ "account") (invalid_account c.account))
    validate_token_uri (prefix ▸ "token_uri") c.token_uri
    validate_credentials_from (suc i) creds (c.path ∷ paths)

  unfoldable pub validate_credentials : List Credential → Check
  validate_credentials creds = validate_credentials_from 0 creds []

  unfoldable pub validate : Config → Check
  validate cfg = do
    validate_strategy (field "strategy" ∷ []) cfg.strategy
    reject (not (is_empty cfg.project_id) && not (matches_project_id cfg.project_id))
        (problem_at (field "project_id" ∷ []) (invalid_project_id cfg.project_id))
    validate_topics cfg.pubsub.topics
    validate_buckets cfg.storage.buckets
    validate_credentials cfg.credentials
