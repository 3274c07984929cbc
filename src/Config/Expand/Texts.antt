-- ===== src/Config/Expand/Texts.antt =====
-- What `expandConfig` of internal/config/config.go reaches: the texts and the maps of a configuration,
-- listed apart from the code that expands them.
use gcp_emulator_provisioner.Prelude.{
  ◌≡◌, refl, ap, Bool, Option, none, some, List, [], ◌∷◌, ◌++◌, map, Text, Dict,
}
use gcp_emulator_provisioner.Prelude.Int.{ℤ}
use gcp_emulator_provisioner.Config.Schema.{
  PushOidcToken, DeadLetter, Retry, Subscription, Topic, Bucket, Credential, Config,
}
use gcp_emulator_provisioner.Config.Expand.{
  expand_env_vars, expand_map, expand_oidc_token, expand_dead_letter, expand_retry,
  expand_subscription, expand_topic, expand_bucket, expand_credential, expand_config,
}

module _ {A B : Type 0} where
  abbrev pub concat_map : (A → List B) → List A → List B
  concat_map f [] = []
  concat_map f (x ∷ xs) = f x ++ concat_map f xs

  abbrev pub optional : (A → List B) → Option A → List B
  optional f none = []
  optional f (some a) = f a

abbrev oidc_texts : PushOidcToken → List Text
oidc_texts t = t.service_account_email ∷ t.audience ∷ []

abbrev retry_texts : Retry → List Text
retry_texts r = r.minimum_backoff ∷ r.maximum_backoff ∷ []

abbrev block_texts : Option PushOidcToken → Option DeadLetter → Option Retry → List Text
block_texts o d r =
    optional oidc_texts o ++ (optional (λ d. d.topic ∷ []) d ++ optional retry_texts r)

abbrev subscription_texts : Subscription → List Text
subscription_texts s =
    s.name
    ∷ s.strategy
    ∷ s.ack_deadline
    ∷ s.message_retention
    ∷ s.filter
    ∷ s.expiration_ttl
    ∷ s.push_endpoint
    ∷ s.push_wrapper
    ∷ block_texts s.push_oidc_token s.dead_letter s.retry

abbrev topic_texts : Topic → List Text
topic_texts t =
    t.name ∷ t.strategy ∷ t.message_retention ∷ concat_map subscription_texts t.subscriptions

abbrev bucket_texts : Bucket → List Text
bucket_texts b = b.name ∷ b.strategy ∷ b.location ∷ b.storage_class ∷ []

abbrev credential_texts : Credential → List Text
credential_texts c = c.path ∷ c.strategy ∷ c.account ∷ c.token_uri ∷ []

-- Every text of a configuration but those in its maps
abbrev pub texts : Config → List Text
texts cfg =
    cfg.strategy
    ∷ cfg.project_id
    ∷ (concat_map topic_texts cfg.pubsub.topics
        ++ (concat_map bucket_texts cfg.storage.buckets
            ++ concat_map credential_texts cfg.credentials))

abbrev topic_maps : Topic → List Dict
topic_maps t = t.labels ∷ concat_map (λ s. s.labels ∷ s.push_attributes ∷ []) t.subscriptions

-- Every map of a configuration
abbrev pub maps : Config → List Dict
maps cfg = concat_map topic_maps cfg.pubsub.topics

abbrev subscription_flags : Subscription → List (Option Bool)
subscription_flags s =
    s.retain_acked_messages
    ∷ s.enable_message_ordering
    ∷ s.enable_exactly_once_delivery
    ∷ some s.push_write_metadata
    ∷ []

-- Every flag and every number of a configuration
abbrev pub flags : Config → List (Option Bool)
flags cfg =
    concat_map (λ t. concat_map subscription_flags t.subscriptions) cfg.pubsub.topics
    ++ concat_map (λ b. b.versioning ∷ []) cfg.storage.buckets

abbrev pub attempts : Config → List ℤ
attempts cfg =
    concat_map
      (λ t.
        concat_map (λ s. optional (λ d. d.max_delivery_attempts ∷ []) s.dead_letter)
          t.subscriptions)
      cfg.pubsub.topics

map-append : {A B : Type 0} (f : A → B) (xs ys : List A) → map f (xs ++ ys) ≡ map f xs ++ map f ys
map-append f [] ys = refl
map-append f (x ∷ xs) ys = ap (λ l. f x ∷ l) (map-append f xs ys)

-- A list that is taken from each element is mapped where it is taken from the mapped element.
concat_map-map :
    {A B : Type 0} (take : A → List B) (g : A → A) (f : B → B) (xs : List A)
    → ((a : A) → take (g a) ≡ map f (take a))
    → concat_map take (map g xs) ≡ map f (concat_map take xs)
concat_map-map take g f [] each = refl
concat_map-map take g f (x ∷ xs) each =
    rw (each x, concat_map-map take g f xs each, map-append) refl

concat_map-keeps :
    {A B : Type 0} (take : A → List B) (g : A → A) (xs : List A)
    → ((a : A) → take (g a) ≡ take a)
    → concat_map take (map g xs) ≡ concat_map take xs
concat_map-keeps take g [] each = refl
concat_map-keeps take g (x ∷ xs) each = rw (each x, concat_map-keeps take g xs each) refl

module _ (lookup_env : Text → Option Text) where
  abbrev expand : Text → Text
  expand = expand_env_vars lookup_env

  expand_blocks-texts :
      (o : Option PushOidcToken) (d : Option DeadLetter) (r : Option Retry)
      → block_texts
          (expand_oidc_token lookup_env o)
          (expand_dead_letter lookup_env d)
          (expand_retry lookup_env r)
        ≡ map expand (block_texts o d r)
  expand_blocks-texts none none none = refl
  expand_blocks-texts none none (some r) = refl
  expand_blocks-texts none (some d) none = refl
  expand_blocks-texts none (some d) (some r) = refl
  expand_blocks-texts (some o) none none = refl
  expand_blocks-texts (some o) none (some r) = refl
  expand_blocks-texts (some o) (some d) none = refl
  expand_blocks-texts (some o) (some d) (some r) = refl

  expand_subscription-texts :
      (s : Subscription)
      → subscription_texts (expand_subscription lookup_env s) ≡ map expand (subscription_texts s)
  unfolding expand_subscription
  expand_subscription-texts s =
      ap
        (λ l.
          expand s.name
          ∷ expand s.strategy
          ∷ expand s.ack_deadline
          ∷ expand s.message_retention
          ∷ expand s.filter
          ∷ expand s.expiration_ttl
          ∷ expand s.push_endpoint
          ∷ expand s.push_wrapper
          ∷ l)
        (expand_blocks-texts s.push_oidc_token s.dead_letter s.retry)

  expand_topic-texts :
      (t : Topic) → topic_texts (expand_topic lookup_env t) ≡ map expand (topic_texts t)
  unfolding expand_topic
  expand_topic-texts t =
      ap (λ l. expand t.name ∷ expand t.strategy ∷ expand t.message_retention ∷ l)
        (concat_map-map subscription_texts (expand_subscription lookup_env) expand t.subscriptions
          expand_subscription-texts)

  expand_topic-maps :
      (t : Topic)
      → topic_maps (expand_topic lookup_env t) ≡ map (expand_map lookup_env) (topic_maps t)
  unfolding expand_topic expand_subscription
  expand_topic-maps t =
      ap (λ l. expand_map lookup_env t.labels ∷ l)
        (concat_map-map (λ (s : Subscription). s.labels ∷ s.push_attributes ∷ [])
          (expand_subscription lookup_env) (expand_map lookup_env) t.subscriptions (λ s. refl))

  -- The texts of an expanded configuration are those of the configuration, each expanded.
  pub expand_config-texts :
      (cfg : Config) → texts (expand_config lookup_env cfg) ≡ map expand (texts cfg)
  unfolding expand_config expand_bucket expand_credential
  expand_config-texts cfg =
      rw
        (
          concat_map-map topic_texts (expand_topic lookup_env) expand cfg.pubsub.topics
              expand_topic-texts,
          concat_map-map bucket_texts (expand_bucket lookup_env) expand cfg.storage.buckets
              (λ b. refl),
          concat_map-map credential_texts (expand_credential lookup_env) expand cfg.credentials
              (λ c. refl),
          map-append expand (concat_map topic_texts cfg.pubsub.topics) (
              concat_map bucket_texts cfg.storage.buckets
              ++ concat_map credential_texts cfg.credentials),
          map-append expand (concat_map bucket_texts cfg.storage.buckets)
              (concat_map credential_texts cfg.credentials),
        )
        refl

  -- The maps of an expanded configuration are those of the configuration, each expanded.
  pub expand_config-maps :
      (cfg : Config) → maps (expand_config lookup_env cfg) ≡ map (expand_map lookup_env) (maps cfg)
  unfolding expand_config
  expand_config-maps cfg =
      concat_map-map topic_maps (expand_topic lookup_env) (expand_map lookup_env) cfg.pubsub.topics
        expand_topic-maps

  expand_subscription-attempts :
      (d : Option DeadLetter)
      → optional (λ e. e.max_delivery_attempts ∷ []) (expand_dead_letter lookup_env d)
        ≡ optional (λ e. e.max_delivery_attempts ∷ []) d
  expand_subscription-attempts none = refl
  expand_subscription-attempts (some d) = refl

  -- The flags and the numbers are left as they are.
  pub expand_config-keeps :
      (cfg : Config)
      → (flags (expand_config lookup_env cfg) ≡ flags cfg)
        × (attempts (expand_config lookup_env cfg) ≡ attempts cfg)
  unfolding expand_config expand_topic expand_subscription expand_bucket
  expand_config-keeps cfg = (
    rw
        (
          concat_map-keeps (λ (t : Topic). concat_map subscription_flags t.subscriptions)
              (expand_topic lookup_env) cfg.pubsub.topics
              (λ t.
                concat_map-keeps subscription_flags (expand_subscription lookup_env) t.subscriptions
                  (λ s. refl)),
          concat_map-keeps (λ (b : Bucket). b.versioning ∷ []) (expand_bucket lookup_env)
              cfg.storage.buckets (λ b. refl),
        )
        refl,
    concat_map-keeps
        (λ (t : Topic).
          concat_map (λ s. optional (λ d. d.max_delivery_attempts ∷ []) s.dead_letter)
            t.subscriptions)
        (expand_topic lookup_env) cfg.pubsub.topics
        (λ t.
          concat_map-keeps
            (λ (s : Subscription). optional (λ d. d.max_delivery_attempts ∷ []) s.dead_letter)
            (expand_subscription lookup_env) t.subscriptions
            (λ s. expand_subscription-attempts s.dead_letter)),
  )
