-- ===== src/Provisioner/Frame/Sections.antt =====
-- The sections and the whole run of internal/provisioner/provisioner.go under a view of the world
-- that their calls keep.
use gcp_emulator_provisioner.Prelude.{refl, List, [], ◌∷◌, Text}
use gcp_emulator_provisioner.Config.Schema
use gcp_emulator_provisioner.Config.Strategy.{effective_strategy, effective_credential_strategy}
use gcp_emulator_provisioner.Client.Errors.{
  wrap, writing_credential, provisioning_topic, provisioning_subscription, provisioning_bucket,
}
use gcp_emulator_provisioner.Credentials.{System}
use gcp_emulator_provisioner.Provisioner.Effects.{◌>>◌, annotate}
use gcp_emulator_provisioner.Provisioner.Admin.{Options, PubSubAdmin, StorageAdmin}
use gcp_emulator_provisioner.Provisioner.Topics.{ensure_topic}
use gcp_emulator_provisioner.Provisioner.Subscriptions.Ensure.{ensure_subscription}
use gcp_emulator_provisioner.Provisioner.Buckets.{ensure_bucket}
use gcp_emulator_provisioner.Provisioner.Keys.{ensure_credential, provision_credentials}
use gcp_emulator_provisioner.Provisioner.Sections.{
  provision_topics, provision_subscriptions_of, provision_subscriptions, provision_pubsub,
  provision_buckets, provision_storage, run,
}
use gcp_emulator_provisioner.Provisioner.Frame.{Keeps, bind-Keeps, Frame}
use gcp_emulator_provisioner.Provisioner.Frame.Handlers.{
  ensure_topic-Keeps, ensure_subscription-Keeps, ensure_bucket-Keeps, ensure_credential-Keeps,
}
use gcp_emulator_provisioner.Runtime.{Runtime}

module _ (rt : Runtime) {W V : Type 0} (view : W → V) (pubsub : PubSubAdmin W)
    (storage : StorageAdmin W) (sys : System W) (opts : Options)
    (frame : Frame view opts.dry_run pubsub storage sys) where
  pub provision_credentials-Keeps :
      (project : Text) (creds : List Schema.Credential)
      → Keeps view (provision_credentials sys opts.dry_run project creds)
  unfolding provision_credentials
  provision_credentials-Keeps project [] s = refl
  provision_credentials-Keeps project (c ∷ creds) s =
      bind-Keeps view
        (annotate (wrap (writing_credential c.path))
          (ensure_credential sys opts.dry_run project c (effective_credential_strategy c.strategy)))
        (λ _. provision_credentials sys opts.dry_run project creds)
        (ensure_credential-Keeps rt view pubsub storage sys opts frame project c
          (effective_credential_strategy c.strategy))
        (λ _. provision_credentials-Keeps project creds) s

  provision_topics-Keeps :
      (global : Text) (topics : List Schema.Topic)
      → Keeps view (provision_topics rt pubsub opts global topics)
  unfolding provision_topics
  provision_topics-Keeps global [] s = refl
  provision_topics-Keeps global (t ∷ topics) s =
      bind-Keeps view
        (annotate (wrap (provisioning_topic t.name))
          (ensure_topic rt pubsub opts t (effective_strategy (t.strategy ∷ global ∷ []))))
        (λ _. provision_topics rt pubsub opts global topics)
        (ensure_topic-Keeps rt view pubsub storage sys opts frame t
          (effective_strategy (t.strategy ∷ global ∷ [])))
        (λ _. provision_topics-Keeps global topics) s

  provision_subscriptions_of-Keeps :
      (global topic : Text) (subs : List Schema.Subscription)
      → Keeps view (provision_subscriptions_of rt pubsub opts global topic subs)
  unfolding provision_subscriptions_of
  provision_subscriptions_of-Keeps global topic [] s = refl
  provision_subscriptions_of-Keeps global topic (b ∷ subs) s =
      bind-Keeps view
        (annotate (wrap (provisioning_subscription b.name topic)) (
          ensure_subscription rt pubsub opts topic b
            (effective_strategy (b.strategy ∷ global ∷ []))))
        (λ _. provision_subscriptions_of rt pubsub opts global topic subs)
        (ensure_subscription-Keeps rt view pubsub storage sys opts frame topic b
          (effective_strategy (b.strategy ∷ global ∷ [])))
        (λ _. provision_subscriptions_of-Keeps global topic subs) s

  provision_subscriptions-Keeps :
      (global : Text) (topics : List Schema.Topic)
      → Keeps view (provision_subscriptions rt pubsub opts global topics)
  unfolding provision_subscriptions
  provision_subscriptions-Keeps global [] s = refl
  provision_subscriptions-Keeps global (t ∷ topics) s =
      bind-Keeps view (provision_subscriptions_of rt pubsub opts global t.name t.subscriptions)
        (λ _. provision_subscriptions rt pubsub opts global topics)
        (provision_subscriptions_of-Keeps global t.name t.subscriptions)
        (λ _. provision_subscriptions-Keeps global topics) s

  provision_buckets-Keeps :
      (global : Text) (buckets : List Schema.Bucket)
      → Keeps view (provision_buckets rt storage opts global buckets)
  unfolding provision_buckets
  provision_buckets-Keeps global [] s = refl
  provision_buckets-Keeps global (b ∷ buckets) s =
      bind-Keeps view
        (annotate (wrap (provisioning_bucket b.name))
          (ensure_bucket rt storage opts b (effective_strategy (b.strategy ∷ global ∷ []))))
        (λ _. provision_buckets rt storage opts global buckets)
        (ensure_bucket-Keeps rt view pubsub storage sys opts frame b
          (effective_strategy (b.strategy ∷ global ∷ [])))
        (λ _. provision_buckets-Keeps global buckets) s

  pub provision_pubsub-Keeps :
      (cfg : Schema.Config) → Keeps view (provision_pubsub rt pubsub opts cfg)
  unfolding provision_pubsub
  provision_pubsub-Keeps cfg =
      bind-Keeps view (provision_topics rt pubsub opts cfg.strategy cfg.pubsub.topics)
        (λ _. provision_subscriptions rt pubsub opts cfg.strategy cfg.pubsub.topics)
        (provision_topics-Keeps cfg.strategy cfg.pubsub.topics)
        (λ _. provision_subscriptions-Keeps cfg.strategy cfg.pubsub.topics)

  pub provision_storage-Keeps :
      (cfg : Schema.Config) → Keeps view (provision_storage rt storage opts cfg)
  unfolding provision_storage
  provision_storage-Keeps cfg = provision_buckets-Keeps cfg.strategy cfg.storage.buckets

  pub run-Keeps : (cfg : Schema.Config) → Keeps view (run rt pubsub storage sys opts cfg)
  unfolding run
  run-Keeps cfg =
      bind-Keeps view (provision_credentials sys opts.dry_run cfg.project_id cfg.credentials)
        (λ _. provision_pubsub rt pubsub opts cfg >> provision_storage rt storage opts cfg)
        (provision_credentials-Keeps cfg.project_id cfg.credentials)
        λ _.
          bind-Keeps view (provision_pubsub rt pubsub opts cfg)
            (λ _. provision_storage rt storage opts cfg) (provision_pubsub-Keeps cfg)
            (λ _. provision_storage-Keeps cfg)
