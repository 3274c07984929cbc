-- ===== src/Command/Clients.antt =====
-- The clients that `run` of cmd/gcp-emulator-provisioner/main.go connects for a section, and those
-- that it leaves unset.
use gcp_emulator_provisioner.Prelude.{
  ◌≡◌, refl, ◌∙◌, ap, true, false, not, ◌&&◌, Bool-cases, inl, inr, [], ◌∷◌, arith, Text, Result,
  ok, err, codes, List,
}
use gcp_emulator_provisioner.Config.Schema.{Config, Topic, Bucket}
use gcp_emulator_provisioner.Config.Load.{Sources, LoadError, load}
use gcp_emulator_provisioner.Credentials.{System}
use gcp_emulator_provisioner.Provisioner.Effects.{Run}
use gcp_emulator_provisioner.Provisioner.Admin.{Options, Method, PubSubAdmin, StorageAdmin}
use gcp_emulator_provisioner.Provisioner.Sections.{
  run, provision_pubsub, provision_topics, provision_subscriptions, provision_storage,
  provision_buckets,
}
use gcp_emulator_provisioner.Command.{
  section_pubsub, section_storage, valid_section, wants, nothing, provision, pubsub_admin,
  storage_admin, storage_options, with_storage, with_pubsub, with_project, with_config, run_command,
  CommandError, Connection, unconnected, close_and_log, resolve_project_id, env_or_default,
}
use gcp_emulator_provisioner.Runtime.{Runtime}

module _ (rt : Runtime) {W : Type 0} (opts : Options) where
  topics_unused :
      (p q : PubSubAdmin W) (global : Text) (ts : List Topic)
      → nothing ts ≡ true
      → (provision_topics rt p opts global ts ≡ provision_topics rt q opts global ts)
        × (provision_subscriptions rt p opts global ts
            ≡ provision_subscriptions rt q opts global ts)
  unfolding provision_topics provision_subscriptions
  topics_unused p q global [] h = (refl, refl)
  topics_unused p q global (t ∷ ts) h = cc

  -- Without topics the Pub/Sub endpoint is not called.
  provision_pubsub_unused :
      (p q : PubSubAdmin W) (cfg : Config)
      → nothing cfg.pubsub.topics ≡ true
      → provision_pubsub rt p opts cfg ≡ provision_pubsub rt q opts cfg
  unfolding provision_pubsub
  provision_pubsub_unused p q cfg h =
      let (first, second) = topics_unused p q cfg.strategy cfg.pubsub.topics h in
      rw (first, second) refl

  buckets_unused :
      (p q : StorageAdmin W) (global : Text) (bs : List Bucket)
      → nothing bs ≡ true
      → provision_buckets rt p opts global bs ≡ provision_buckets rt q opts global bs
  unfolding provision_buckets
  buckets_unused p q global [] h = refl
  buckets_unused p q global (b ∷ bs) h = cc

  provision_storage_unused :
      (p q : StorageAdmin W) (cfg : Config)
      → nothing cfg.storage.buckets ≡ true
      → provision_storage rt p opts cfg ≡ provision_storage rt q opts cfg
  unfolding provision_storage
  provision_storage_unused p q cfg h = buckets_unused p q cfg.strategy cfg.storage.buckets h

module _ (getenv : Text → Text) (rt : Runtime) (sources : Sources) {W : Type 0} (sys : System W)
    (connect_pubsub : Text → Text → Method W (Connection W (PubSubAdmin W)))
    (connect_storage : Text → Text → Method W (Connection W (StorageAdmin W))) where
  pubsub_unused :
      (section : Text) (opts : Options) (cfg : Config) (p q : PubSubAdmin W) (st : StorageAdmin W)
      → valid_section section ≡ true
      → (wants section section_pubsub && not (nothing cfg.pubsub.topics)) ≡ false
      → provision getenv rt sources sys connect_pubsub connect_storage section opts cfg p st
        ≡ provision getenv rt sources sys connect_pubsub connect_storage section opts cfg q st
  unfolding provision valid_section wants run
  pubsub_unused section opts cfg p q st v h =
      ground (arith, provision_pubsub_unused rt opts p q cfg)

  storage_unused :
      (section : Text) (opts : Options) (cfg : Config) (p : PubSubAdmin W) (st st' : StorageAdmin W)
      → valid_section section ≡ true
      → (wants section section_storage && not (nothing cfg.storage.buckets)) ≡ false
      → provision getenv rt sources sys connect_pubsub connect_storage section opts cfg p st
        ≡ provision getenv rt sources sys connect_pubsub connect_storage section opts cfg p st'
  unfolding provision valid_section wants run
  storage_unused section opts cfg p st st' v h =
      ground (arith, provision_storage_unused rt opts st st' cfg)

  module _ (n n' : PubSubAdmin W) (m m' : StorageAdmin W) (section : Text) (opts : Options)
      (valid : valid_section section ≡ true) where
    -- A pair of interfaces stands for those that stay unset.
    abbrev after_storage :
        PubSubAdmin W
        → StorageAdmin W
        → Config
        → PubSubAdmin W
        → Run W
        → Result CommandError (Connection W (StorageAdmin W)) × W
        → Result CommandError (Unit {0}) × Run W
    after_storage a b cfg p s r =
        with_storage getenv rt sources sys connect_pubsub connect_storage a b section opts cfg p s r

    abbrev stored :
        PubSubAdmin W
        → StorageAdmin W
        → Config
        → W
        → Result CommandError (Connection W (StorageAdmin W)) × W
    stored a b cfg w =
        storage_admin getenv rt sources sys connect_pubsub connect_storage a b section cfg w

    same_storage :
        (cfg : Config) (p : PubSubAdmin W) (s : Run W)
        (r : Result CommandError (Connection W (StorageAdmin W))) (w : W)
        → after_storage n m cfg p s (r, w) ≡ after_storage n' m' cfg p s (r, w)
    unfolding with_storage storage_options
    same_storage cfg p s (ok st) w = refl
    same_storage cfg p s (err e) w = refl

    unused_storage :
        (cfg : Config) (p : PubSubAdmin W) (s : Run W) (w : W)
        → (wants section section_storage && not (nothing cfg.storage.buckets)) ≡ false
        → after_storage n m cfg p s (ok (unconnected m), w)
          ≡ after_storage n' m' cfg p s (ok (unconnected m'), w)
    unfolding with_storage storage_options close_and_log
    unused_storage cfg p s w h = rw (h, storage_unused section opts cfg p m m' valid h) refl

    storage_step :
        (cfg : Config) (p : PubSubAdmin W) (s : Run W) (w : W)
        → after_storage n m cfg p s (stored n m cfg w)
          ≡ after_storage n' m' cfg p s (stored n' m' cfg w)
    unfolding storage_admin
    storage_step cfg p s w =
        elim (Bool-cases (wants section section_storage && not (nothing cfg.storage.buckets))) [
          | inl used ↦ rw used (same_storage cfg p s _ _)
          | inr unused ↦ rw unused (unused_storage cfg p s w unused)
        ]

    -- A Pub/Sub interface that no part of the section calls makes no difference.
    other_pubsub :
        (cfg : Config) (s : Run W) (r : Result CommandError (Connection W (StorageAdmin W))) (w : W)
        → (wants section section_pubsub && not (nothing cfg.pubsub.topics)) ≡ false
        → after_storage n' m' cfg n s (r, w) ≡ after_storage n' m' cfg n' s (r, w)
    unfolding with_storage
    other_pubsub cfg s (err e) w h = refl
    other_pubsub cfg s (ok st) w h =
        rw
          (pubsub_unused section
            (storage_options getenv rt sources sys connect_pubsub connect_storage n' m' section cfg
              opts)
            cfg n n' st.admin valid h)
          refl

    abbrev after_pubsub :
        PubSubAdmin W
        → StorageAdmin W
        → Config
        → Run W
        → Result CommandError (Connection W (PubSubAdmin W)) × W
        → Result CommandError (Unit {0}) × Run W
    after_pubsub a b cfg s r =
        with_pubsub getenv rt sources sys connect_pubsub connect_storage a b section opts cfg s r

    -- The deferred closing of a Pub/Sub client
    abbrev closed :
        Connection W (PubSubAdmin W)
        → Result CommandError (Unit {0}) × Run W
        → Result CommandError (Unit {0}) × Run W
    closed c r = (r.0, close_and_log (codes "Pub/Sub") c r.1)

    same_pubsub :
        (cfg : Config) (s : Run W) (r : Result CommandError (Connection W (PubSubAdmin W))) (w : W)
        → after_pubsub n m cfg s (r, w) ≡ after_pubsub n' m' cfg s (r, w)
    unfolding with_pubsub
    same_pubsub cfg s (err e) w = refl
    same_pubsub cfg s (ok p) w = ap (closed p) (storage_step cfg p.admin s w)

    unused_pubsub :
        (cfg : Config) (s : Run W) (w : W)
        → (wants section section_pubsub && not (nothing cfg.pubsub.topics)) ≡ false
        → after_pubsub n m cfg s (ok (unconnected n), w)
          ≡ after_pubsub n' m' cfg s (ok (unconnected n'), w)
    unfolding with_pubsub close_and_log
    unused_pubsub cfg s w h = ap (closed (unconnected n)) (
        storage_step cfg n s w ∙ other_pubsub cfg s (stored n' m' cfg w).0 (stored n' m' cfg w).1 h)

    pubsub_step :
        (cfg : Config) (s : Run W) (w : W)
        → after_pubsub n m cfg s
            (pubsub_admin getenv rt sources sys connect_pubsub connect_storage n m section cfg w)
          ≡ after_pubsub n' m' cfg s (
              pubsub_admin getenv rt sources sys connect_pubsub connect_storage n' m' section cfg w)
    unfolding pubsub_admin
    pubsub_step cfg s w =
        elim (Bool-cases (wants section section_pubsub && not (nothing cfg.pubsub.topics))) [
          | inl used ↦ rw used (same_pubsub cfg s _ _)
          | inr unused ↦ rw unused (unused_pubsub cfg s w unused)
        ]

    project_step :
        (cfg : Config) (s : Run W) (r : Result CommandError Text)
        → with_project getenv rt sources sys connect_pubsub connect_storage n m section opts cfg s r
          ≡ with_project getenv rt sources sys connect_pubsub connect_storage n' m' section opts cfg
              s r
    unfolding with_project
    project_step cfg s (err e) = refl
    project_step cfg s (ok id) = pubsub_step (record cfg { project_id = id }) s s.world

    config_step :
        (s : Run W) (r : Result LoadError Config)
        → with_config getenv rt sources sys connect_pubsub connect_storage n m section opts s r
          ≡ with_config getenv rt sources sys connect_pubsub connect_storage n' m' section opts s r
    unfolding with_config
    config_step s (err e) = refl
    config_step s (ok cfg) = project_step cfg s (resolve_project_id getenv cfg)

    -- In a valid section, what the command does and returns is the same whatever stands in place of
    -- a client that it did not connect: an interface that stays unset is never called.
    pub run_command_unset :
        (s : Run W)
        → run_command getenv rt sources sys connect_pubsub connect_storage n m section opts s
          ≡ run_command getenv rt sources sys connect_pubsub connect_storage n' m' section opts s
    unfolding run_command
    run_command_unset s =
        config_step s (
          load rt sources (env_or_default getenv (codes "GCP_CONFIG_PATH") (codes "./config.yaml")))
