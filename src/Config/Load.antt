-- ===== src/Config/Load.antt =====
-- `Load` of internal/config/config.go, over the reading of files and the parser of YAML.
use gcp_emulator_provisioner.Prelude.{
  ◌≡◌, ap, ◌∙◌, map, Option, Text, Result, ok, err, ◌>>=◌, ◌>>◌, >>=-eq-ok, >>-eq-ok, arith,
}
use gcp_emulator_provisioner.Config.Schema.{Config}
use gcp_emulator_provisioner.Config.Expand.{expand_env_vars, expand_config}
use gcp_emulator_provisioner.Config.Expand.Maps.{lookups, last_values, expand_config-lookups}
use gcp_emulator_provisioner.Config.Expand.Texts.{
  texts, maps, flags, attempts, expand_config-texts, expand_config-keeps,
}
use gcp_emulator_provisioner.Config.Problem.{ConfigError}
use gcp_emulator_provisioner.Config.Validate.Resources.{validate, validate_topics}
use gcp_emulator_provisioner.Config.Validate.Accepted.{IsAccepted, validate_topics-IsAccepted}
use gcp_emulator_provisioner.Runtime.{Runtime}

-- `os.ReadFile`, `yaml.Unmarshal` and `os.LookupEnv`; an error is its text.
pub record Sources : Type 0 where
  pub read_file : Text → Result Text Text
  pub unmarshal : Text → Result Text Config
  pub lookup_env : Text → Option Text

pub data LoadError : Type 0 where
  reading_config parsing_config : Text → LoadError
  validating_config : ConfigError → LoadError

abbrev pub with_context : {E A : Type 0} → (E → LoadError) → Result E A → Result LoadError A
with_context f (ok a) = ok a
with_context f (err e) = err (f e)

with_context-eq-ok :
    {E A : Type 0} (f : E → LoadError) (r : Result E A) {a : A} → with_context f r ≡ ok a → r ≡ ok a
with_context-eq-ok f (ok a) h = ground arith
with_context-eq-ok f (err e) h = cc

validate-topics :
    (rt : Runtime) (cfg : Config)
    → validate rt cfg ≡ ok tt
    → validate_topics rt cfg.pubsub.topics ≡ ok tt
unfolding validate
validate-topics rt cfg h = ground arith

module _ (rt : Runtime) (sources : Sources) where
  unfoldable pub load : Text → Result LoadError Config
  load path = do
    content ← with_context reading_config (sources.read_file path)
    raw ← with_context parsing_config (sources.unmarshal content)
    let cfg = expand_config sources.lookup_env raw
    with_context validating_config (validate rt cfg)
    ok cfg

  -- A configuration that was loaded is what the parser made of the file's content with each of its
  -- texts expanded, each of its maps with keys and values expanded, the last of the entries with one
  -- expanded key in the order of iteration, and its flags and numbers as they were. It passed
  -- validation after that, so its topics have what `IsAccepted` says of names, settings and dead letter
  -- targets.
  pub load-ok :
      (path : Text) (cfg : Config)
      → load path ≡ ok cfg
      → (content : Text) × (raw : Config) × (sources.read_file path ≡ ok content)
        × (sources.unmarshal content ≡ ok raw)
        × (texts cfg ≡ map (expand_env_vars sources.lookup_env) (texts raw))
        × (lookups (maps cfg) ≡ last_values sources.lookup_env (maps raw))
        × (flags cfg ≡ flags raw)
        × (attempts cfg ≡ attempts raw)
        × (validate rt cfg ≡ ok tt)
        × IsAccepted rt cfg.pubsub.topics
  unfolding load
  load-ok path cfg h =
      let (content, r, h1) = >>=-eq-ok (with_context reading_config (sources.read_file path)) _ h in
      let (raw, u, h2) = >>=-eq-ok (with_context parsing_config (sources.unmarshal content)) _ h1 in
      let expanded = expand_config sources.lookup_env raw in
      let (v, e) =
        >>-eq-ok (with_context validating_config (validate rt expanded)) (ok expanded) h2 in
      let same : cfg ≡ expanded = ground arith in
      let valid : validate rt cfg ≡ ok tt =
        rw same (with_context-eq-ok validating_config (validate rt expanded) v) in
      let (kept, counted) = expand_config-keeps sources.lookup_env raw in
      (
        content,
        raw,
        with_context-eq-ok reading_config (sources.read_file path) r,
        with_context-eq-ok parsing_config (sources.unmarshal content) u,
        ap texts same ∙ expand_config-texts sources.lookup_env raw,
        ap (λ c. lookups (maps c)) same ∙ expand_config-lookups sources.lookup_env raw,
        ap flags same ∙ kept,
        ap attempts same ∙ counted,
        valid,
        validate_topics-IsAccepted rt cfg.pubsub.topics (validate-topics rt cfg valid),
      )
