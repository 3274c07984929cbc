-- ===== src/Provisioner/Served.antt =====
-- The client of internal/client/pubsub.go as the interface that internal/provisioner calls, over a
-- service that keeps what the messages say. The service checks a whole mask first, and may fill in
-- fields of a subscription that were left out.

pub mod Topics
pub mod Subscriptions
pub mod Runs
use gcp_emulator_provisioner.Prelude.{
  ◌≡◌, refl, sym, ◌∙◌, ap, Bool, Bool-cases, inl, inr, true, false, Option, none, some, List, [],
  ◌∷◌, arith, Text, Result, ok, err, all, if◌then◌else◌,
}
use gcp_emulator_provisioner.Client.Resources.{
  Topic, Subscription, FieldPath, ack_deadline_seconds, message_retention_duration,
  retain_acked_messages, enable_exactly_once_delivery, expiration_policy, labels, push_config,
  dead_letter_policy, retry_policy,
}
use gcp_emulator_provisioner.Client.Errors.{
  Error, Context, wrap, is_not_found, getting_topic, getting_subscription, updating_topic,
  updating_subscription,
}
use gcp_emulator_provisioner.Client.Messages.{Durations, TopicMessage, SubscriptionMessage}
use gcp_emulator_provisioner.Client.Paths.{topic_path, subscription_path}
use gcp_emulator_provisioner.Client.Convert.{
  to_proto_topic, from_proto_topic, to_proto_subscription, from_proto_subscription,
}
use gcp_emulator_provisioner.Client.Convert.Laws.{
  IsSendable, IsSendableTopic, read_back, from_proto_topic-to_proto_topic,
  from_proto_subscription-to_proto_subscription,
}
use gcp_emulator_provisioner.Client.PubSub.{
  TopicAdminClient, SubscriptionAdminClient, PubSubClient, join_paths, read_answer, create_answer,
  update_answer, get_topic, create_topic, update_topic, get_subscription, create_subscription,
  update_subscription, admin,
}
use gcp_emulator_provisioner.Client.PubSub.Errors.{is_unsupported_field-wrap}
use gcp_emulator_provisioner.Provisioner.Service.{
  Table, Support, Form, IsRefusing, found_get, found_update, answer_get, answer_create,
  answer_update,
}
use gcp_emulator_provisioner.Provisioner.Topics.Laws.{set_topic}
use gcp_emulator_provisioner.Provisioner.Topics.Convergence.{ServesTopics}
use gcp_emulator_provisioner.Provisioner.Subscriptions.Drifts.{set_subscription}
use gcp_emulator_provisioner.Provisioner.Subscriptions.Convergence.{ServesSubscriptions}
use gcp_emulator_provisioner.Provisioner.Sections.Steps.{HasTargets}
use gcp_emulator_provisioner.Runtime.{Runtime}

-- The answer to a read of a resource that may be there: a message, or an error with the code NotFound
abbrev pub Answers : {W M : Type 0} → Option M → W → Result Error M × W → Type 0
Answers none w r = (e : Error) × (r ≡ (err e, w)) × (is_not_found e ≡ true)
Answers (some m) w r = r ≡ (ok m, w)

-- One field of a message from another
abbrev pub set_topic_field :
    {D : Type 0} → TopicMessage D → FieldPath → TopicMessage D → TopicMessage D
set_topic_field sent message_retention_duration live = record live {
  message_retention_duration = sent.message_retention_duration;
}
set_topic_field sent labels live = record live { labels = sent.labels }
set_topic_field sent _ live = live

abbrev pub set_subscription_field :
    {D : Type 0} → SubscriptionMessage D → FieldPath → SubscriptionMessage D → SubscriptionMessage D
set_subscription_field sent ack_deadline_seconds live = record live {
  ack_deadline_seconds = sent.ack_deadline_seconds;
}
set_subscription_field sent message_retention_duration live = record live {
  message_retention_duration = sent.message_retention_duration;
}
set_subscription_field sent retain_acked_messages live = record live {
  retain_acked_messages = sent.retain_acked_messages;
}
set_subscription_field sent enable_exactly_once_delivery live = record live {
  enable_exactly_once_delivery = sent.enable_exactly_once_delivery;
}
set_subscription_field sent expiration_policy live = record live {
  expiration_policy = sent.expiration_policy;
}
set_subscription_field sent labels live = record live { labels = sent.labels }
set_subscription_field sent push_config live = record live { push_config = sent.push_config }
set_subscription_field sent dead_letter_policy live = record live {
  dead_letter_policy = sent.dead_letter_policy;
}
set_subscription_field sent retry_policy live = record live { retry_policy = sent.retry_policy }

-- A service that keeps the messages of topics in a table under their names in the project
pub record KeepsTopics {W D : Type 0} (c : TopicAdminClient W D) (project_id : Text)
    (topics : Table W (TopicMessage D)) (u : Support) : Type 0 where
  pub get : (n : Text) (w : W) → Answers (topics.at w n) w (c.get_topic (topic_path project_id n) w)
  pub create :
      (n : Text) (m : TopicMessage D) (w : W)
      → m.name ≡ topic_path project_id n
      → topics.at w n ≡ none
      → c.create_topic m w ≡ answer_create topics n m w
  pub update :
      (n : Text) (m : TopicMessage D) (mask : List FieldPath) (live : TopicMessage D) (w : W)
      → m.name ≡ topic_path project_id n
      → topics.at w n ≡ some live
      → c.update_topic m mask w ≡ answer_update topics (set_topic_field m) u n mask w

-- A service that keeps the messages of subscriptions in a table under their names in the project,
-- completed, and creates a subscription where its topic and its dead letter topic are
pub record KeepsSubscriptions {W D : Type 0} (c : SubscriptionAdminClient W D) (lib : Durations D)
    (project_id : Text) (topics : Table W (TopicMessage D)) (subs : Table W (SubscriptionMessage D))
    (u : Support) (complete : SubscriptionMessage D → SubscriptionMessage D) : Type 0 where
  pub get :
      (n : Text) (w : W)
      → Answers (subs.at w n) w (c.get_subscription (subscription_path project_id n) w)
  pub create :
      (n : Text) (m : SubscriptionMessage D) (w : W)
      → m.name ≡ subscription_path project_id n
      → subs.at w n ≡ none
      → HasTargets topics (from_proto_subscription lib m) w
      → c.create_subscription m w ≡ answer_create subs n (complete m) w
  pub update :
      (n : Text) (m : SubscriptionMessage D) (mask : List FieldPath) (live : SubscriptionMessage D)
      (w : W)
      → m.name ≡ subscription_path project_id n
      → subs.at w n ≡ some live
      → c.update_subscription m mask w
        ≡ answer_update subs (set_subscription_field (complete m)) u n mask w

-- The refusals of a service as the client returns them
abbrev pub wrapped : (Text → List FieldPath → Context) → Support → Support
wrapped context u = record {
  supports = u.supports;
  refusal = λ n mask. wrap (context n mask) (u.refusal n mask);
}

abbrev pub topic_context : Text → List FieldPath → Context
topic_context n mask = updating_topic n (join_paths mask)

abbrev pub subscription_context : Text → List FieldPath → Context
subscription_context n mask = updating_subscription n (join_paths mask)

pub wrapped-IsRefusing :
    (rt : Runtime) (context : Text → List FieldPath → Context) (u : Support)
    → IsRefusing rt u
    → IsRefusing rt (wrapped context u)
wrapped-IsRefusing rt context u h n mask =
    is_unsupported_field-wrap rt (context n mask) (u.refusal n mask) (h n mask)

-- The client's view of what the service keeps
abbrev pub topic_form : {D : Type 0} → Durations D → Text → Form (TopicMessage D) Topic
topic_form lib project_id = record {
  view = from_proto_topic lib;
  make = to_proto_topic lib project_id;
  set = λ t p m. set_topic_field (to_proto_topic lib project_id t) p m;
}

abbrev pub subscription_form :
    {D : Type 0}
    → Durations D
    → Text
    → (SubscriptionMessage D → SubscriptionMessage D)
    → Form (SubscriptionMessage D) Subscription
subscription_form lib project_id complete = record {
  view = from_proto_subscription lib;
  make = λ d. complete (to_proto_subscription lib project_id d);
  set = λ d p m. set_subscription_field (complete (to_proto_subscription lib project_id d)) p m;
}

-- What is read back of a subscription that was sent
abbrev pub filled :
    {D : Type 0}
    → Durations D
    → Text
    → (SubscriptionMessage D → SubscriptionMessage D)
    → Subscription
    → Subscription
filled lib project_id complete d =
    from_proto_subscription lib (complete (to_proto_subscription lib project_id d))

pub view-set_topic_field :
    {D : Type 0} (lib : Durations D) (sent : TopicMessage D) (p : FieldPath) (m : TopicMessage D)
    → from_proto_topic lib (set_topic_field sent p m)
      ≡ set_topic (from_proto_topic lib sent) p (from_proto_topic lib m)
unfolding from_proto_topic
view-set_topic_field lib sent message_retention_duration m = refl
view-set_topic_field lib sent labels m = refl
view-set_topic_field lib sent _ m = refl

pub view-set_subscription_field :
    {D : Type 0} (lib : Durations D) (sent : SubscriptionMessage D) (p : FieldPath)
    (m : SubscriptionMessage D)
    → from_proto_subscription lib (set_subscription_field sent p m)
      ≡ set_subscription (from_proto_subscription lib sent) p (from_proto_subscription lib m)
unfolding from_proto_subscription
view-set_subscription_field lib sent ack_deadline_seconds m = refl
view-set_subscription_field lib sent message_retention_duration m = refl
view-set_subscription_field lib sent retain_acked_messages m = refl
view-set_subscription_field lib sent enable_exactly_once_delivery m = refl
view-set_subscription_field lib sent expiration_policy m = refl
view-set_subscription_field lib sent labels m = refl
view-set_subscription_field lib sent push_config m = refl
view-set_subscription_field lib sent dead_letter_policy m = refl
view-set_subscription_field lib sent retry_policy m = refl

module _ {W R : Type 0} (table : Table W R) where
  pub read_found :
      {B : Type 0} (context : Context) (form : Form R B) (o : Option R) (w : W)
      (r : Result Error R × W)
      → Answers o w r
      → (read_answer context form.view r.0, r.1) ≡ found_get form w o
  unfolding read_answer
  read_found context form none w r (e, answer, gone) = rw answer (rw gone refl)
  read_found context form (some m) w r answer = rw answer refl

  pub update_found :
      (context : Text → List FieldPath → Context) (set : FieldPath → R → R) (u : Support) (n : Text)
      (mask : List FieldPath) (w : W) (live : R)
      → let r = found_update table set u n mask w (some live) in
        (update_answer (context n mask) r.0, r.1)
        ≡ found_update table set (wrapped context u) n mask w (some live)
  unfolding update_answer
  update_found context set u n mask w live = elim (Bool-cases (all u.supports mask)) [
    | inl all_known ↦ rw all_known refl
    | inr refused ↦ rw refused refl
  ]
