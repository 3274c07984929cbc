-- ===== src/Provisioner/Sections.antt =====
-- internal/provisioner/provisioner.go: the sections and their order. A section whose part of the
-- configuration is empty does nothing, so the code's test for that is the empty list of the loop.
pub mod Steps
pub mod Complete
use gcp_emulator_provisioner.Prelude.{List, [], ◌∷◌, Text}
use gcp_emulator_provisioner.Config.Schema.{Topic, Subscription, Bucket, Config}
use gcp_emulator_provisioner.Config.Strategy.{effective_strategy}
use gcp_emulator_provisioner.Client.Errors.{
  wrap, provisioning_topic, provisioning_subscription, provisioning_bucket,
}
use gcp_emulator_provisioner.Credentials.{System}
use gcp_emulator_provisioner.Provisioner.Effects.{Act, pure, annotate, ◌>>◌}
use gcp_emulator_provisioner.Provisioner.Admin.{Options, PubSubAdmin, StorageAdmin}
use gcp_emulator_provisioner.Provisioner.Topics.{ensure_topic}
use gcp_emulator_provisioner.Provisioner.Subscriptions.Ensure.{ensure_subscription}
use gcp_emulator_provisioner.Provisioner.Buckets.{ensure_bucket}
use gcp_emulator_provisioner.Provisioner.Keys.{provision_credentials}
use gcp_emulator_provisioner.Runtime.{Runtime}

module _ (rt : Runtime) {W : Type 0} (admin : PubSubAdmin W) (opts : Options) where
  unfoldable pub provision_topics : Text → List Topic → Act W (Unit {0})
  provision_topics global [] = pure tt
  provision_topics global (t ∷ topics) = do
    annotate (wrap (provisioning_topic t.name))
        (ensure_topic rt admin opts t (effective_strategy (t.strategy ∷ global ∷ [])))
    provision_topics global topics

  unfoldable pub provision_subscriptions_of : Text → Text → List Subscription → Act W (Unit {0})
  provision_subscriptions_of global topic_name [] = pure tt
  provision_subscriptions_of global topic_name (s ∷ subs) = do
    annotate (wrap (provisioning_subscription s.name topic_name)) (
        ensure_subscription rt admin opts topic_name s
          (effective_strategy (s.strategy ∷ global ∷ [])))
    provision_subscriptions_of global topic_name subs

  unfoldable pub provision_subscriptions : Text → List Topic → Act W (Unit {0})
  provision_subscriptions global [] = pure tt
  provision_subscriptions global (t ∷ topics) = do
    provision_subscriptions_of global t.name t.subscriptions
    provision_subscriptions global topics

  -- Every topic, then every subscription
  unfoldable pub provision_pubsub : Config → Act W (Unit {0})
  provision_pubsub cfg = do
    provision_topics cfg.strategy cfg.pubsub.topics
    provision_subscriptions cfg.strategy cfg.pubsub.topics

module _ (rt : Runtime) {W : Type 0} (admin : StorageAdmin W) (opts : Options) where
  unfoldable pub provision_buckets : Text → List Bucket → Act W (Unit {0})
  provision_buckets global [] = pure tt
  provision_buckets global (b ∷ buckets) = do
    annotate (wrap (provisioning_bucket b.name))
        (ensure_bucket rt admin opts b (effective_strategy (b.strategy ∷ global ∷ [])))
    provision_buckets global buckets

  unfoldable pub provision_storage : Config → Act W (Unit {0})
  provision_storage cfg = provision_buckets cfg.strategy cfg.storage.buckets

module _ (rt : Runtime) {W : Type 0} (pubsub : PubSubAdmin W) (storage : StorageAdmin W)
    (sys : System W) (opts : Options) where
  unfoldable pub run : Config → Act W (Unit {0})
  run cfg = do
    provision_credentials sys opts.dry_run cfg.project_id cfg.credentials
    provision_pubsub rt pubsub opts cfg
    provision_storage rt storage opts cfg
