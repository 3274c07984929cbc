-- ===== src/Config/Expand.antt =====
-- `expandEnvVars`, `expandMap` and `expandConfig` of internal/config/config.go. The look-up in the
-- environment, `os.LookupEnv`, is an argument.
pub mod Laws
pub mod Texts
pub mod Maps
use gcp_emulator_provisioner.Prelude.{
  ℕ, zero, suc, ◌+◌, Bool, ◌&&◌, Option, none, some, List, [], ◌∷◌, ◌++◌, map, Text, Dict, codes,
  nat_eq, insert, length, if◌then◌else◌,
}
use gcp_emulator_provisioner.Config.Schema.{
  PushOidcToken, DeadLetter, Retry, Subscription, Topic, Bucket, Credential, PubSub, Storage,
  Config,
}

-- The bytes before the first closing brace
unfoldable pub until_brace : Text → Option Text
until_brace [] = none
until_brace (c ∷ s) =
    if nat_eq c b'}'
    then some []
    else (elim (until_brace s) [ none ↦ none | some n ↦ some (c ∷ n) ])

abbrev pub nonempty : Option Text → Option Text
nonempty (some (c ∷ n)) = some (c ∷ n)
nonempty _ = none

-- The name in a match of `\$\{([^}]+)}` at the start of the text
unfoldable pub reference : Text → Option Text
unfolding until_brace
reference (a ∷ b ∷ s) = if nat_eq a b'$' && nat_eq b b'{' then nonempty (until_brace s) else none
reference _ = none

module _ (lookup_env : Text → Option Text) where
  -- What stands for a reference
  unfoldable pub replacement : Text → Text
  replacement name = elim (lookup_env name) [
    | some value ↦ value
    | none ↦ codes "${" ++ name ++ codes "}"
  ]

  -- The text from a place on; the first argument counts the bytes of a match that are still to be
  -- passed over.
  unfoldable pub expand_from : ℕ → Text → Text
  unfolding reference replacement
  expand_from k [] = []
  expand_from (suc k) (c ∷ s) = expand_from k s
  expand_from zero (c ∷ s) = elim (reference (c ∷ s)) [
    | none ↦ c ∷ expand_from 0 s
    | some name ↦ replacement name ++ expand_from (length name + 2) s
  ]

  unfoldable pub expand_env_vars : Text → Text
  unfolding expand_from
  expand_env_vars s = expand_from 0 s

  -- The loop of `expandMap`, in the order of iteration
  unfoldable pub expand_entries : Dict → Dict → Dict
  expand_entries out [] = out
  expand_entries out ((k, v) ∷ m) =
      expand_entries (insert (expand_env_vars k) (expand_env_vars v) out) m

  unfoldable pub expand_map : Dict → Dict
  unfolding expand_entries
  expand_map m = expand_entries [] m

  abbrev pub expand_oidc_token : Option PushOidcToken → Option PushOidcToken
  expand_oidc_token none = none
  expand_oidc_token (some t) = some (record {
    service_account_email = expand_env_vars t.service_account_email;
    audience = expand_env_vars t.audience;
  })

  abbrev pub expand_dead_letter : Option DeadLetter → Option DeadLetter
  expand_dead_letter none = none
  expand_dead_letter (some dl) = some (record dl { topic = expand_env_vars dl.topic })

  abbrev pub expand_retry : Option Retry → Option Retry
  expand_retry none = none
  expand_retry (some r) = some (record {
    minimum_backoff = expand_env_vars r.minimum_backoff;
    maximum_backoff = expand_env_vars r.maximum_backoff;
  })

  unfoldable pub expand_subscription : Subscription → Subscription
  expand_subscription s = record s {
    name = expand_env_vars s.name;
    strategy = expand_env_vars s.strategy;
    ack_deadline = expand_env_vars s.ack_deadline;
    message_retention = expand_env_vars s.message_retention;
    filter = expand_env_vars s.filter;
    expiration_ttl = expand_env_vars s.expiration_ttl;
    push_endpoint = expand_env_vars s.push_endpoint;
    push_wrapper = expand_env_vars s.push_wrapper;
    labels = expand_map s.labels;
    push_attributes = expand_map s.push_attributes;
    push_oidc_token = expand_oidc_token s.push_oidc_token;
    dead_letter = expand_dead_letter s.dead_letter;
    retry = expand_retry s.retry;
  }

  unfoldable pub expand_topic : Topic → Topic
  unfolding expand_subscription
  expand_topic t = record {
    name = expand_env_vars t.name;
    strategy = expand_env_vars t.strategy;
    labels = expand_map t.labels;
    message_retention = expand_env_vars t.message_retention;
    subscriptions = map expand_subscription t.subscriptions;
  }

  unfoldable pub expand_credential : Credential → Credential
  expand_credential c = record {
    path = expand_env_vars c.path;
    strategy = expand_env_vars c.strategy;
    account = expand_env_vars c.account;
    token_uri = expand_env_vars c.token_uri;
  }

  unfoldable pub expand_bucket : Bucket → Bucket
  expand_bucket b = record b {
    name = expand_env_vars b.name;
    strategy = expand_env_vars b.strategy;
    location = expand_env_vars b.location;
    storage_class = expand_env_vars b.storage_class;
  }

  unfoldable pub expand_config : Config → Config
  unfolding expand_topic expand_credential expand_bucket
  expand_config cfg = record {
    strategy = expand_env_vars cfg.strategy;
    project_id = expand_env_vars cfg.project_id;
    pubsub = record { topics = map expand_topic cfg.pubsub.topics };
    storage = record { buckets = map expand_bucket cfg.storage.buckets };
    credentials = map expand_credential cfg.credentials;
  }
