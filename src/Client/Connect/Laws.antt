-- ===== src/Client/Connect/Laws.antt =====
-- Connections that `ConnectPubSub` of internal/client/pubsub.go leaves open.
use gcp_emulator_provisioner.Prelude.{
  ℕ, ◌+◌, ◌-◌, ◌≡◌, Option, none, some, List, Text, Result, ok, err, arith,
}
use gcp_emulator_provisioner.Client.Errors.{Error, Method}
use gcp_emulator_provisioner.Client.Messages.{TopicMessage, SubscriptionMessage}
use gcp_emulator_provisioner.Client.Resources.{FieldPath}
use gcp_emulator_provisioner.Client.PubSub.{
  TopicAdminClient, SubscriptionAdminClient, PubSubClient, close,
}
use gcp_emulator_provisioner.Client.Connect.{
  ClientOption, Clock, PubSubLibrary, pubsub_options, after_wait, wait_pubsub,
  with_subscription_client, with_topic_client, connect_pubsub,
}

-- A call that opens something leaves as many connections more as the number says, and closing it
-- leads back to as many as there were; a call that fails leaves as many as there were.
abbrev pub Opens : {W A : Type 0} → (W → ℕ) → ℕ → (A → W → W) → W → Result Error A × W → Type 0
Opens count n shut w (err e, w') = count w' ≡ count w
Opens count n shut w (ok a, w') = (count w' ≡ count w + n) × (count (shut a w') ≡ count w)

-- The same with a property of what was opened, and the closing in any world
abbrev pub Links :
    {W A : Type 0} → (W → ℕ) → ℕ → (A → Type 0) → (A → W → W) → W → Result Error A × W → Type 0
Links count n good shut w (err e, w') = count w' ≡ count w
Links {W} count n good shut w (ok a, w') =
    (count w' ≡ count w + n) × good a × ((v : W) → count (shut a v) ≡ count v - n)

pub Links-Opens :
    {W A : Type 0} (count : W → ℕ) (n : ℕ) (good : A → Type 0) (shut : A → W → W) (w w' : W)
    (r : Result Error A)
    → Links count n good shut w (r, w')
    → Opens count n shut w (r, w')
Links-Opens count n good shut w w' (err e) h = h
Links-Opens count n good shut w w' (ok a) (more, fine, back) = (more, omega (arith, back w', more))

-- A call that opens and closes no connection
abbrev pub Quiet : {W A : Type 0} → (W → ℕ) → Method W A → Type 0
Quiet {W} count f = (w : W) → count (f w).1 ≡ count w

pub record QuietTopics {W D : Type 0} (count : W → ℕ) (c : TopicAdminClient W D) : Type 0 where
  pub get_topic : (path : Text) → Quiet count (c.get_topic path)
  pub create_topic : (t : TopicMessage D) → Quiet count (c.create_topic t)
  pub update_topic :
      (t : TopicMessage D) (mask : List FieldPath) → Quiet count (c.update_topic t mask)

pub record QuietSubscriptions {W D : Type 0} (count : W → ℕ) (c : SubscriptionAdminClient W D)
    : Type 0 where
  pub get_subscription : (path : Text) → Quiet count (c.get_subscription path)
  pub create_subscription : (s : SubscriptionMessage D) → Quiet count (c.create_subscription s)
  pub update_subscription :
      (s : SubscriptionMessage D) (mask : List FieldPath)
      → Quiet count (c.update_subscription s mask)

abbrev pub QuietClient : {W D : Type 0} → (W → ℕ) → PubSubClient W D → Type 0
QuietClient count c = QuietTopics count c.topics × QuietSubscriptions count c.subs

-- Each dialling of package apiv1 opens one connection, which the closing of its client closes and no
-- other call of that client.
pub record CountsPubSub {W D : Type 0} (count : W → ℕ) (lib : PubSubLibrary W D) : Type 0 where
  pub topics :
      (opts : List ClientOption) (w : W)
      → Links count 1
          (QuietTopics count)
          (λ c v. (c.close v).1)
          w
          (lib.new_topic_admin_client opts w)
  pub subs :
      (opts : List ClientOption) (w : W)
      → Links count 1
          (QuietSubscriptions count)
          (λ c v. (c.close v).1)
          w
          (lib.new_subscription_admin_client opts w)

module _ {W D : Type 0} (count : W → ℕ) (lib : PubSubLibrary W D) (clock : Clock)
    (counts : CountsPubSub count lib) where
  abbrev pub Balanced : W → Result Error (PubSubClient W D) × W → Type 0
  Balanced w r = Links count 2 (QuietClient count) (λ c v. (close c v).1) w r

  close_lem :
      (c : PubSubClient W D) (v : W)
      → ((u : W) → count (c.topics.close u).1 ≡ count u - 1)
      → ((u : W) → count (c.subs.close u).1 ≡ count u - 1)
      → count (close c v).1 ≡ count v - 2
  unfolding close
  close_lem c v topics subs = omega (arith, topics v, subs (c.topics.close v).1)

  after_wait-Balanced :
      (c : PubSubClient W D) (e : Option Error) (w v : W)
      → count v ≡ count w + 2
      → QuietClient count c
      → ((u : W) → count (close c u).1 ≡ count u - 2)
      → Balanced w (after_wait lib clock c e v)
  unfolding after_wait
  after_wait-Balanced c none w v h quiet shut = (h, quiet, shut)
  after_wait-Balanced c (some e) w v h quiet shut = omega (arith, shut v, h)

  subscription-Balanced :
      (project_id : Text) (topics : TopicAdminClient W D)
      (r : Result Error (SubscriptionAdminClient W D)) (w v v' : W)
      → count v ≡ count w + 1
      → QuietTopics count topics
      → ((u : W) → count (topics.close u).1 ≡ count u - 1)
      → Links count 1 (QuietSubscriptions count) (λ c u. (c.close u).1) v (r, v')
      → Balanced w (with_subscription_client lib clock project_id topics r v')
  unfolding with_subscription_client wait_pubsub
  subscription-Balanced project_id topics (err e) w v v' h quiet shut dialled =
      omega (arith, shut v', h, dialled)
  subscription-Balanced project_id topics (ok subs) w v v' h quiet shut (one, quiet', shut') =
      let c : PubSubClient W D = record { project_id = project_id; topics = topics; subs = subs } in
      after_wait-Balanced c _ w v' (omega (arith, h, one)) (quiet, quiet')
        (λ u. close_lem c u shut shut')

  topic-Balanced :
      (project_id host : Text) (r : Result Error (TopicAdminClient W D)) (w v : W)
      → Links count 1 (QuietTopics count) (λ c u. (c.close u).1) w (r, v)
      → Balanced w (with_topic_client lib clock project_id host r v)
  unfolding with_topic_client
  topic-Balanced project_id host (err e) w v dialled = dialled
  topic-Balanced project_id host (ok topics) w v (one, quiet, shut) =
      subscription-Balanced project_id topics _ w v _ one quiet shut
        (counts.subs (pubsub_options host) v)

  pub connect_pubsub-Links :
      (project_id host : Text) (w : W) → Balanced w (connect_pubsub lib clock project_id host w)
  unfolding connect_pubsub
  connect_pubsub-Links project_id host w =
      topic-Balanced project_id host _ w _ (counts.topics (pubsub_options host) w)

  -- Whether the dialling of either client fails, the service never answers or all goes well:
  -- `ConnectPubSub` leaves two connections more if it returns a client, which closing that client
  -- takes away again, and none if it returns an error.
  pub connect_pubsub-Opens :
      (project_id host : Text) (w : W)
      → Opens count 2 (λ c v. (close c v).1) w (connect_pubsub lib clock project_id host w)
  connect_pubsub-Opens project_id host w =
      Links-Opens count 2 (QuietClient count) (λ c v. (close c v).1) w _ _
        (connect_pubsub-Links project_id host w)
