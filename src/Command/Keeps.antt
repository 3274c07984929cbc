-- ===== src/Command/Keeps.antt =====
-- What `run` of cmd/gcp-emulator-provisioner/main.go leaves as it was, its connections included.
use gcp_emulator_provisioner.Prelude.{
  ◌≡◌, refl, ◌∙◌, ap, true, not, Bool, ◌&&◌, Bool-cases, inl, inr, Text, codes, Result, ok, err,
  ◌==◌,
}
use gcp_emulator_provisioner.Config.Schema.{Config}
use gcp_emulator_provisioner.Config.Load.{Sources, LoadError, load}
use gcp_emulator_provisioner.Client.Errors.{Error, plain}
use gcp_emulator_provisioner.Credentials.{System}
use gcp_emulator_provisioner.Provisioner.Effects.{Run}
use gcp_emulator_provisioner.Provisioner.Admin.{Options, Method, PubSubAdmin, StorageAdmin}
use gcp_emulator_provisioner.Provisioner.Frame.{PubSubFrame, StorageFrame, SystemFrame, Frame}
use gcp_emulator_provisioner.Provisioner.Frame.Sections.{
  provision_credentials-Keeps, provision_pubsub-Keeps, provision_storage-Keeps, run-Keeps,
}
use gcp_emulator_provisioner.Command.{
  section_pubsub, section_storage, section_credentials, valid_section, wants, nothing, Connection,
  close_and_log, provision, pubsub_admin, storage_admin, storage_options, with_storage, with_pubsub,
  with_project, with_config, run_command, CommandError, map_command, connecting_pubsub,
  connecting_storage, resolve_project_id, env_or_default,
}
use gcp_emulator_provisioner.Command.Clients.{run_command_unset}
use gcp_emulator_provisioner.Runtime.{Runtime}

-- A call that connects keeps the view if it fails. If it succeeds, the calls of the client keep the
-- view, and its closing leads back to the view before the call from every world with the view behind
-- it.
abbrev pub Connects :
    {W V A E : Type 0} → (W → V) → (A → Type 0) → W → Result E (Connection W A) × W → Type 0
Connects view good w (err e, w') = view w' ≡ view w
Connects {W} view good w (ok c, w') =
    good c.admin × ((v : W) → view v ≡ view w' → view (c.close v).1 ≡ view w)

-- Interfaces that stand for those that stay unset
abbrev failing_pubsub : {W : Type 0} → PubSubAdmin W
failing_pubsub = record {
  get_topic = λ n w. (err (plain (codes "unset")), w);
  create_topic = λ t w. (err (plain (codes "unset")), w);
  update_topic = λ t mask w. (err (plain (codes "unset")), w);
  get_subscription = λ n w. (err (plain (codes "unset")), w);
  create_subscription = λ d w. (err (plain (codes "unset")), w);
  update_subscription = λ d mask w. (err (plain (codes "unset")), w);
}

abbrev failing_storage : {W : Type 0} → StorageAdmin W
failing_storage = record {
  get_bucket = λ n w. (err (plain (codes "unset")), w);
  create_bucket = λ b w. (err (plain (codes "unset")), w);
  set_versioning = λ n v w. (err (plain (codes "unset")), w);
}

module _ {W V : Type 0} (view : W → V) (dry : Bool) where
  failing_pubsub_frame : PubSubFrame view dry failing_pubsub
  failing_pubsub_frame = record {
    get_topic = λ n w. refl;
    get_subscription = λ n w. refl;
    create_topic = λ applied t w. refl;
    update_topic = λ applied t mask w. refl;
    create_subscription = λ applied d w. refl;
    update_subscription = λ applied d mask w. refl;
  }

  failing_storage_frame : StorageFrame view dry failing_storage
  failing_storage_frame = record {
    get_bucket = λ n w. refl;
    create_bucket = λ applied b w. refl;
    set_versioning = λ applied n v w. refl;
  }

map_Connects :
    {W V A : Type 0} (view : W → V) (good : A → Type 0) (f : Error → CommandError) (w w' : W)
    (r : Result Error (Connection W A))
    → Connects view good w (r, w')
    → Connects view good w (map_command f r, w')
map_Connects view good f w w' (err e) h = h
map_Connects view good f w w' (ok c) h = h

module _ (getenv : Text → Text) (rt : Runtime) (sources : Sources) {W V : Type 0} (view : W → V)
    (sys : System W) (connect_pubsub : Text → Text → Method W (Connection W (PubSubAdmin W)))
    (connect_storage : Text → Text → Method W (Connection W (StorageAdmin W))) (opts : Options)
    (system : SystemFrame view opts.dry_run sys)
    (pubsub : (p h : Text) (w : W)
      → Connects view (PubSubFrame view opts.dry_run) w (connect_pubsub p h w))
    (storage : (p h : Text) (w : W)
      → Connects view (StorageFrame view opts.dry_run) w (connect_storage p h w))
    (section : Text) where
  provision-Keeps :
      (o : Options) (cfg : Config) (p : PubSubAdmin W) (st : StorageAdmin W) (s : Run W)
      → Frame view o.dry_run p st sys
      → view
          (provision getenv rt sources sys connect_pubsub connect_storage section o cfg p st
            s).1.world
        ≡ view s.world
  unfolding provision
  provision-Keeps o cfg p st s frame = elim (Bool-cases (section == section_pubsub)) [
    | inl e ↦ rw e (provision_pubsub-Keeps rt view p st sys o frame cfg s)
    | inr e ↦ elim (Bool-cases (section == section_storage)) [
      | inl f ↦ rw (e, f) (provision_storage-Keeps rt view p st sys o frame cfg s)
      | inr f ↦ elim (Bool-cases (section == section_credentials)) [
        | inl g ↦
            rw (e, f, g)
              (provision_credentials-Keeps rt view p st sys o frame cfg.project_id cfg.credentials
                s)
        | inr g ↦ rw (e, f, g) (run-Keeps rt view p st sys o frame cfg s)
      ]
    ]
  ]

  dry_run-storage_options :
      (cfg : Config)
      → (storage_options getenv rt sources sys connect_pubsub connect_storage failing_pubsub
          failing_storage section cfg opts).dry_run
        ≡ opts.dry_run
  unfolding storage_options
  dry_run-storage_options cfg =
      elim (Bool-cases (wants section section_storage && not (nothing cfg.storage.buckets))) [
        | inl used ↦ rw used refl
        | inr unused ↦ rw unused refl
      ]

  abbrev Used : (A : Type 0) → (A → Type 0) → W → Result CommandError (Connection W A) × W → Type 0
  Used A good w r = Connects view good w r

  pubsub_admin-Connects :
      (cfg : Config) (w : W)
      → Connects view (PubSubFrame view opts.dry_run) w (
          pubsub_admin getenv rt sources sys connect_pubsub connect_storage failing_pubsub
            failing_storage section cfg w)
  unfolding pubsub_admin
  pubsub_admin-Connects cfg w =
      elim (Bool-cases (wants section section_pubsub && not (nothing cfg.pubsub.topics))) [
        | inl used ↦ rw used (
            map_Connects view (PubSubFrame view opts.dry_run) connecting_pubsub w _ _
              (pubsub cfg.project_id (getenv (codes "PUBSUB_EMULATOR_HOST")) w))
        | inr unused ↦ rw unused (failing_pubsub_frame view opts.dry_run, λ v e. e)
      ]

  storage_admin-Connects :
      (cfg : Config) (w : W)
      → Connects view (StorageFrame view opts.dry_run) w (
          storage_admin getenv rt sources sys connect_pubsub connect_storage failing_pubsub
            failing_storage section cfg w)
  unfolding storage_admin
  storage_admin-Connects cfg w =
      elim (Bool-cases (wants section section_storage && not (nothing cfg.storage.buckets))) [
        | inl used ↦ rw used (
            map_Connects view (StorageFrame view opts.dry_run) connecting_storage w _ _
              (storage cfg.project_id (getenv (codes "STORAGE_EMULATOR_HOST")) w))
        | inr unused ↦ rw unused (failing_storage_frame view opts.dry_run, λ v e. e)
      ]

  with_storage-Keeps :
      (cfg : Config) (p : PubSubAdmin W) (s : Run W)
      (r : Result CommandError (Connection W (StorageAdmin W))) (before w : W)
      → PubSubFrame view opts.dry_run p
      → Connects view (StorageFrame view opts.dry_run) before (r, w)
      → view
          (with_storage getenv rt sources sys connect_pubsub connect_storage failing_pubsub
            failing_storage section opts cfg p s
            (r, w)).1.world
        ≡ view before
  unfolding with_storage close_and_log
  with_storage-Keeps cfg p s (err e) before w frame h = h
  with_storage-Keeps cfg p s (ok st) before w frame (good, shut) = shut _ (
      provision-Keeps
        (storage_options getenv rt sources sys connect_pubsub connect_storage failing_pubsub
          failing_storage section cfg opts)
        cfg p st.admin (record s { world = w })
        (rw (dry_run-storage_options cfg)
          (record { on_pubsub = frame; on_storage = good; on_system = system })))

  with_pubsub-Keeps :
      (cfg : Config) (s : Run W) (r : Result CommandError (Connection W (PubSubAdmin W))) (w : W)
      → Connects view (PubSubFrame view opts.dry_run) s.world (r, w)
      → view
          (with_pubsub getenv rt sources sys connect_pubsub connect_storage failing_pubsub
            failing_storage section opts cfg s
            (r, w)).1.world
        ≡ view s.world
  unfolding with_pubsub close_and_log
  with_pubsub-Keeps cfg s (err e) w h = h
  with_pubsub-Keeps cfg s (ok p) w (good, shut) =
      shut _ (with_storage-Keeps cfg p.admin s _ w _ good (storage_admin-Connects cfg w))

  with_project-Keeps :
      (cfg : Config) (s : Run W) (r : Result CommandError Text)
      → view
          (with_project getenv rt sources sys connect_pubsub connect_storage failing_pubsub
            failing_storage section opts cfg s r).1.world
        ≡ view s.world
  unfolding with_project
  with_project-Keeps cfg s (err e) = refl
  with_project-Keeps cfg s (ok id) =
      let resolved : Config = record cfg { project_id = id } in
      with_pubsub-Keeps resolved s _ _ (pubsub_admin-Connects resolved s.world)

  with_config-Keeps :
      (s : Run W) (r : Result LoadError Config)
      → view
          (with_config getenv rt sources sys connect_pubsub connect_storage failing_pubsub
            failing_storage section opts s r).1.world
        ≡ view s.world
  unfolding with_config
  with_config-Keeps s (err e) = refl
  with_config-Keeps s (ok cfg) = with_project-Keeps cfg s (resolve_project_id getenv cfg)

  -- In a valid section, whatever the configuration is and wherever an error ends the run, the command
  -- leaves every view of the world as it was that the calls of its clients and of the system keep and
  -- that the closing of a client restores: what it connects, it closes.
  pub run_command-Keeps :
      (nil_pubsub : PubSubAdmin W) (nil_storage : StorageAdmin W) (s : Run W)
      → valid_section section ≡ true
      → view
          (run_command getenv rt sources sys connect_pubsub connect_storage nil_pubsub nil_storage
            section opts s).1.world
        ≡ view s.world
  run_command-Keeps nil_pubsub nil_storage s valid =
      ap (λ r. view r.1.world)
        (run_command_unset getenv rt sources sys connect_pubsub connect_storage nil_pubsub
          failing_pubsub nil_storage failing_storage section opts valid s)
      ∙ (unfold run_command in
          with_config-Keeps s (
            load rt sources
              (env_or_default getenv (codes "GCP_CONFIG_PATH") (codes "./config.yaml"))))
