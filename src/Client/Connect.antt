-- ===== src/Client/Connect.antt =====
-- `ConnectPubSub` of internal/client/pubsub.go and what its wait makes of the outcome of
-- `retryUntilReady` in internal/client/client.go.
pub mod Laws
use gcp_emulator_provisioner.Prelude.{
  ℕ, Bool, true, false, Option, none, some, List, [], ◌∷◌, ◌++◌, Text, codes, Result, ok, err,
}
use gcp_emulator_provisioner.Client.Errors.{
  Error, Method, plain, wrap, creating_topic_client, creating_subscription_client,
  connection_timeout_after, connection_timeout,
}
use gcp_emulator_provisioner.Client.Paths.{project_path}
use gcp_emulator_provisioner.Client.Retry.{
  Attempt, Outcome, connected, timed_out, timed_out_waiting, exhausted, retry_until_ready,
}
use gcp_emulator_provisioner.Client.PubSub.{
  FirstPage, found, done, failed, TopicAdminClient, SubscriptionAdminClient, PubSubClient, close,
}

-- The options of package option that the code passes
pub data ClientOption : Type 0 where
  with_endpoint : Text → ClientOption
  without_authentication : ClientOption
  -- `WithGRPCDialOption` for a connection without TLS
  insecure : ClientOption

-- For each attempt, whether the context had expired after the probe and in the wait, and the error
-- that the context then has
pub record Clock : Type 0 where
  pub expired : ℕ → Bool
  pub expired_waiting : ℕ → Bool
  pub context_error : Error

-- What the probe makes of the first page
unfoldable pub answers : FirstPage → Bool
answers found = true
answers done = true
answers (failed e) = false

unfoldable pub attempts_of : Clock → (ℕ → FirstPage) → ℕ → Attempt
unfolding answers
attempts_of clock pages n = record {
  ready = answers (pages n);
  expired = clock.expired n;
  expired_waiting = clock.expired_waiting n;
}

-- The error that `retryUntilReady` returns, by the way in which its loop ends
unfoldable pub outcome_error : Text → Error → Outcome → Option Error
outcome_error service e connected = none
outcome_error service e timed_out = some (wrap connection_timeout_after e)
outcome_error service e timed_out_waiting = some (wrap connection_timeout e)
outcome_error service e exhausted =
    some (plain (codes "failed to connect to " ++ (service ++ codes " after 16 attempts")))

unfoldable pub wait_until_ready : Text → Clock → (ℕ → FirstPage) → Option Error
unfolding attempts_of outcome_error
wait_until_ready service clock pages =
    outcome_error service clock.context_error (retry_until_ready (attempts_of clock pages)).0

unfoldable pub pubsub_options : Text → List ClientOption
pubsub_options [] = []
pubsub_options (c ∷ host) = with_endpoint (c ∷ host) ∷ without_authentication ∷ insecure ∷ []

-- The constructors of package apiv1
pub record PubSubLibrary (W D : Type 0) : Type 0 where
  pub new_topic_admin_client : List ClientOption → Method W (TopicAdminClient W D)
  pub new_subscription_admin_client : List ClientOption → Method W (SubscriptionAdminClient W D)

module _ {W D : Type 0} (lib : PubSubLibrary W D) (clock : Clock) where
  -- The return after the wait
  unfoldable pub after_wait :
      PubSubClient W D → Option Error → W → Result Error (PubSubClient W D) × W
  after_wait c none w = (ok c, w)
  after_wait c (some e) w = let (errors, w') = close c w in (err e, w')

  unfoldable pub wait_pubsub : PubSubClient W D → W → Result Error (PubSubClient W D) × W
  wait_pubsub c w =
      after_wait c
        (wait_until_ready (codes "Pub/Sub") clock
          (λ n. c.topics.list_topics (project_path c.project_id) 1 n w))
        w

  unfoldable pub with_subscription_client :
      Text
      → TopicAdminClient W D
      → Result Error (SubscriptionAdminClient W D)
      → W
      → Result Error (PubSubClient W D) × W
  with_subscription_client project_id topics (err e) w =
      let (closed, w') = topics.close w in (err (wrap creating_subscription_client e), w')
  with_subscription_client project_id topics (ok subs) w =
      wait_pubsub (record { project_id = project_id; topics = topics; subs = subs }) w

  unfoldable pub with_topic_client :
      Text → Text → Result Error (TopicAdminClient W D) → W → Result Error (PubSubClient W D) × W
  with_topic_client project_id host (err e) w = (err (wrap creating_topic_client e), w)
  with_topic_client project_id host (ok topics) w =
      let (r, w') = lib.new_subscription_admin_client (pubsub_options host) w in
      with_subscription_client project_id topics r w'

  unfoldable pub connect_pubsub : Text → Text → Method W (PubSubClient W D)
  connect_pubsub project_id host w =
      let (r, w') = lib.new_topic_admin_client (pubsub_options host) w in
      with_topic_client project_id host r w'
