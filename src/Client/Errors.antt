-- ===== src/Client/Errors.antt =====
-- Errors as the program builds and tests them: sentinels, errors of the services, and the wrapping
-- of one error by `fmt.Errorf` with `%w`. Their tests stand in internal/client/pubsub.go and
-- internal/client/storage.go.
use gcp_emulator_provisioner.Prelude.{
  ℕ, ◌≡◌, refl, Bool, true, false, ◌&&◌, ◌||◌, Text, codes, ◌++◌, contains_text, nat_eq, Result,
}
use gcp_emulator_provisioner.Runtime.{Runtime}

-- The codes of a gRPC status that the program tells apart.
pub data StatusCode : Type 0 where
  not_found already_exists invalid_argument other : StatusCode

-- The formats that wrap an error, with the names that they quote
pub data Context : Type 0 where
  parsing_message_retention parsing_ack_deadline parsing_expiration_ttl : Context
  parsing_minimum_backoff parsing_maximum_backoff : Context
  checking_topic checking_subscription checking_bucket : Context
  provisioning_topic provisioning_bucket writing_credential : Text → Context
  provisioning_subscription : Text → Text → Context
  getting_topic creating_topic getting_subscription creating_subscription : Text → Context
  updating_topic updating_subscription : Text → Text → Context
  getting_bucket creating_bucket versioning_bucket : Text → Context
  creating_topic_client creating_subscription_client creating_storage_client : Context
  connection_timeout_after connection_timeout shutting_down : Context
  versioning_hint : Context
  checking_path creating_directory writing_key : Text → Context
  generating_key encoding_private_key encoding_key : Context

pub data Error : Type 0 where
  -- `ErrNotFound` and `ErrBucketNotFound`
  missing missing_bucket : Error
  -- an error of a service, with the text that its method `Error` returns
  status : StatusCode → Text → Error
  -- an error with a method `HTTPCode`, with that code and its text
  http : ℕ → Text → Error
  -- an error that wraps `storage.ErrBucketNotExist`, with its text
  bucket_not_exist : Text → Error
  -- `fs.ErrNotExist` of a call of the operating system, with its text
  not_exist : Text → Error
  -- another error of the standard library or the operating system, with its text
  plain : Text → Error
  wrap : Context → Error → Error

-- A call of a service: the result and the state that it leaves
abbrev pub Method : Type 0 → Type 0 → Type 0
Method W A = W → Result Error A × W

-- `errors.Is(err, ErrNotFound)`
unfoldable pub is_missing : Error → Bool
is_missing missing = true
is_missing (wrap c e) = is_missing e
is_missing _ = false

-- `errors.Is(err, ErrBucketNotFound)`
unfoldable pub is_missing_bucket : Error → Bool
is_missing_bucket missing_bucket = true
is_missing_bucket (wrap c e) = is_missing_bucket e
is_missing_bucket _ = false

-- `errors.Is(err, fs.ErrNotExist)`
unfoldable pub is_not_exist : Error → Bool
is_not_exist (not_exist m) = true
is_not_exist (wrap c e) = is_not_exist e
is_not_exist _ = false

-- `status.Code(err) == codes.NotFound`, which looks through wrapping
unfoldable pub is_not_found : Error → Bool
is_not_found (status not_found m) = true
is_not_found (wrap c e) = is_not_found e
is_not_found _ = false

-- `status.Code(err) == codes.AlreadyExists`
unfoldable pub is_already_exists : Error → Bool
is_already_exists (status already_exists m) = true
is_already_exists (wrap c e) = is_already_exists e
is_already_exists _ = false

-- `errors.Is(err, storage.ErrBucketNotExist)`
unfoldable pub is_bucket_not_exist : Error → Bool
is_bucket_not_exist (bucket_not_exist m) = true
is_bucket_not_exist (wrap c e) = is_bucket_not_exist e
is_bucket_not_exist _ = false

-- `errors.As(err, &apiErr) && apiErr.HTTPCode() == 409`
unfoldable pub has_conflict_code : Error → Bool
has_conflict_code (http code m) = nat_eq code 409
has_conflict_code (wrap c e) = has_conflict_code e
has_conflict_code _ = false

-- `status.Code(err) == codes.InvalidArgument`, which looks through wrapping
unfoldable pub is_invalid_argument : Error → Bool
is_invalid_argument (status invalid_argument m) = true
is_invalid_argument (wrap c e) = is_invalid_argument e
is_invalid_argument _ = false

module _ (rt : Runtime) where
  before : Context → Text
  before parsing_message_retention = codes "parsing message_retention: "
  before parsing_ack_deadline = codes "parsing ack_deadline: "
  before parsing_expiration_ttl = codes "parsing expiration_ttl: "
  before parsing_minimum_backoff = codes "parsing retry.minimum_backoff: "
  before parsing_maximum_backoff = codes "parsing retry.maximum_backoff: "
  before checking_topic = codes "checking topic: "
  before checking_subscription = codes "checking subscription: "
  before checking_bucket = codes "checking bucket: "
  before (provisioning_topic n) = codes "provisioning topic " ++ rt.quote n ++ codes ": "
  before (provisioning_bucket n) = codes "provisioning bucket " ++ rt.quote n ++ codes ": "
  before (writing_credential p) = codes "writing credential " ++ rt.quote p ++ codes ": "
  before (provisioning_subscription n t) =
      codes "provisioning subscription "
      ++ rt.quote n
      ++ codes " on topic "
      ++ rt.quote t
      ++ codes ": "
  before versioning_hint = codes ""
  before (getting_topic n) = codes "getting topic " ++ rt.quote n ++ codes ": "
  before (creating_topic n) = codes "creating topic " ++ rt.quote n ++ codes ": "
  before (updating_topic n paths) =
      codes "updating topic " ++ rt.quote n ++ codes " (" ++ paths ++ codes "): "
  before (getting_subscription n) = codes "getting subscription " ++ rt.quote n ++ codes ": "
  before (creating_subscription n) = codes "creating subscription " ++ rt.quote n ++ codes ": "
  before (updating_subscription n paths) =
      codes "updating subscription " ++ rt.quote n ++ codes " (" ++ paths ++ codes "): "
  before (getting_bucket n) = codes "getting bucket " ++ rt.quote n ++ codes ": "
  before (creating_bucket n) = codes "creating bucket " ++ rt.quote n ++ codes ": "
  before (versioning_bucket n) = codes "setting versioning on bucket " ++ rt.quote n ++ codes ": "
  before creating_topic_client = codes "creating topic admin client: "
  before creating_subscription_client = codes "creating subscription admin client: "
  before creating_storage_client = codes "creating storage client: "
  before connection_timeout_after = codes "connection timeout after 5m0s: "
  before shutting_down = codes "shutting down: "
  before connection_timeout = codes "connection timeout: "
  before generating_key = codes "generating rsa key: "
  before encoding_private_key = codes "encoding private key: "
  before encoding_key = codes "encoding service account key: "
  before (creating_directory p) = codes "creating directory for " ++ rt.quote p ++ codes ": "
  before (writing_key p) = codes "writing service account key " ++ rt.quote p ++ codes ": "
  before (checking_path p) = codes "checking " ++ rt.quote p ++ codes ": "

  after : Context → Text
  after versioning_hint =
      codes " (fake-gcs-server only implements versioning on its in-memory backend: "
      ++ codes "start it with -backend memory, or drop `versioning` from the bucket)"
  after c = codes ""

  -- `err.Error()`
  unfoldable pub message : Error → Text
  unfolding before after
  message missing = codes "resource not found"
  message missing_bucket = codes "bucket not found"
  message (status c m) = m
  message (http code m) = m
  message (bucket_not_exist m) = m
  message (not_exist m) = m
  message (plain m) = m
  message (wrap c e) = before c ++ message e ++ after c

  -- A wrapped error keeps the text of the error inside.
  pub message-wrap :
      (c : Context) (e : Error) → (a b : Text) × (message (wrap c e) ≡ a ++ message e ++ b)
  unfolding message
  message-wrap c e = (before c, after c, refl)

  unfoldable pub is_unsupported_field : Error → Bool
  unfolding is_invalid_argument message
  is_unsupported_field e =
      is_invalid_argument e
      && (contains_text (message e) (codes "is not a known")
          || contains_text (message e) (codes "currently unsupported in the Pub/Sub Emulator"))

  unfoldable pub is_versioning_unsupported : Error → Bool
  unfolding message
  is_versioning_unsupported e = contains_text (message e) (codes "does not support versioning")
