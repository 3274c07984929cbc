-- ===== src/Client/PubSub.antt =====
-- `PubSubClient` of internal/client/pubsub.go. The clients of package apiv1 are interfaces: for each
-- call that the code makes, its result and the state that it leaves.
pub mod Errors
mod Tests
use gcp_emulator_provisioner.Prelude.{
  ℕ, Option, none, some, List, [], ◌∷◌, ◌++◌, Text, codes, Result, ok, err, if◌then◌else◌,
}
use gcp_emulator_provisioner.Client.Resources.{
  Topic, Subscription, FieldPath, ack_deadline_seconds, message_retention_duration,
  retain_acked_messages, enable_exactly_once_delivery, expiration_policy, labels, push_config,
  dead_letter_policy, retry_policy,
}
use gcp_emulator_provisioner.Client.Errors.{
  Error, Method, missing, wrap, Context, getting_topic, creating_topic, updating_topic,
  getting_subscription, creating_subscription, updating_subscription, is_not_found,
  is_already_exists,
}
use gcp_emulator_provisioner.Client.Messages.{Durations, TopicMessage, SubscriptionMessage}
use gcp_emulator_provisioner.Client.Convert.{
  to_proto_topic, from_proto_topic, to_proto_subscription, from_proto_subscription,
}
use gcp_emulator_provisioner.Client.Paths.{topic_path, subscription_path}
use gcp_emulator_provisioner.Provisioner.Admin.{PubSubAdmin}

-- The answer of the iterator's first `Next`: an element, `iterator.Done` or another error
pub data FirstPage : Type 0 where
  found done : FirstPage
  failed : Error → FirstPage

pub record TopicAdminClient (W D : Type 0) : Type 0 where
  pub get_topic : Text → Method W (TopicMessage D)
  pub create_topic : TopicMessage D → Method W (Unit {0})
  pub update_topic : TopicMessage D → List FieldPath → Method W (Unit {0})
  -- `ListTopics` for a project and a size of the page, at a number of the attempt
  pub list_topics : Text → ℕ → ℕ → W → FirstPage
  pub close : Method W (Unit {0})

pub record SubscriptionAdminClient (W D : Type 0) : Type 0 where
  pub get_subscription : Text → Method W (SubscriptionMessage D)
  pub create_subscription : SubscriptionMessage D → Method W (Unit {0})
  pub update_subscription : SubscriptionMessage D → List FieldPath → Method W (Unit {0})
  pub close : Method W (Unit {0})

pub record PubSubClient (W D : Type 0) : Type 0 where
  pub project_id : Text
  pub topics : TopicAdminClient W D
  pub subs : SubscriptionAdminClient W D

-- The constants that name the fields
abbrev pub path_text : FieldPath → Text
path_text ack_deadline_seconds = codes "ack_deadline_seconds"
path_text message_retention_duration = codes "message_retention_duration"
path_text retain_acked_messages = codes "retain_acked_messages"
path_text enable_exactly_once_delivery = codes "enable_exactly_once_delivery"
path_text expiration_policy = codes "expiration_policy"
path_text labels = codes "labels"
path_text push_config = codes "push_config"
path_text dead_letter_policy = codes "dead_letter_policy"
path_text retry_policy = codes "retry_policy"

-- `strings.Join(paths, ",")`
unfoldable pub join_paths : List FieldPath → Text
join_paths [] = []
join_paths (p ∷ []) = path_text p
join_paths (p ∷ q ∷ paths) = path_text p ++ (codes "," ++ join_paths (q ∷ paths))

-- What a read makes of the answer
unfoldable pub read_answer : {A B : Type 0} → Context → (A → B) → Result Error A → Result Error B
read_answer c convert (ok a) = ok (convert a)
read_answer c convert (err e) = if is_not_found e then err missing else err (wrap c e)

-- What a creation makes of the answer
unfoldable pub create_answer : Context → Result Error (Unit {0}) → Result Error (Unit {0})
create_answer c (ok answered) = ok tt
create_answer c (err e) = if is_already_exists e then ok tt else err (wrap c e)

-- What an update makes of the answer
unfoldable pub update_answer : Context → Result Error (Unit {0}) → Result Error (Unit {0})
update_answer c (ok answered) = ok tt
update_answer c (err e) = err (wrap c e)

-- `errors.Join`, as the list of the errors that are there
abbrev pub join : Result Error (Unit {0}) → Result Error (Unit {0}) → List Error
join (ok closed) (ok closed') = []
join (err e) (ok closed) = e ∷ []
join (ok closed) (err f) = f ∷ []
join (err e) (err f) = e ∷ f ∷ []

module _ {W D : Type 0} (c : PubSubClient W D) where
  unfoldable pub close : W → List Error × W
  close w = let (r, w') = c.topics.close w in let (r', w'') = c.subs.close w' in (join r r', w'')

  module _ (lib : Durations D) where
    unfoldable pub get_topic : Text → Method W Topic
    get_topic name w =
        let (r, w') = c.topics.get_topic (topic_path c.project_id name) w in
        (read_answer (getting_topic name) (from_proto_topic lib) r, w')

    unfoldable pub create_topic : Topic → Method W (Unit {0})
    create_topic t w =
        let (r, w') = c.topics.create_topic (to_proto_topic lib c.project_id t) w in
        (create_answer (creating_topic t.name) r, w')

    unfoldable pub update_topic : Topic → List FieldPath → Method W (Unit {0})
    update_topic t [] w = (ok tt, w)
    update_topic t (p ∷ paths) w =
        let (r, w') = c.topics.update_topic (to_proto_topic lib c.project_id t) (p ∷ paths) w in
        (update_answer (updating_topic t.name (join_paths (p ∷ paths))) r, w')

    unfoldable pub get_subscription : Text → Method W Subscription
    get_subscription name w =
        let (r, w') = c.subs.get_subscription (subscription_path c.project_id name) w in
        (read_answer (getting_subscription name) (from_proto_subscription lib) r, w')

    unfoldable pub create_subscription : Subscription → Method W (Unit {0})
    create_subscription s w =
        let (r, w') = c.subs.create_subscription (to_proto_subscription lib c.project_id s) w in
        (create_answer (creating_subscription s.name) r, w')

    unfoldable pub update_subscription : Subscription → List FieldPath → Method W (Unit {0})
    update_subscription s [] w = (ok tt, w)
    update_subscription s (p ∷ paths) w =
        let (r, w') =
          c.subs.update_subscription (to_proto_subscription lib c.project_id s) (p ∷ paths) w in
        (update_answer (updating_subscription s.name (join_paths (p ∷ paths))) r, w')

    -- The client as the interface of the provisioner
    unfoldable pub admin : PubSubAdmin W
    unfolding get_topic create_topic update_topic get_subscription create_subscription
        update_subscription
    admin = record {
      get_topic = get_topic;
      create_topic = create_topic;
      update_topic = update_topic;
      get_subscription = get_subscription;
      create_subscription = create_subscription;
      update_subscription = update_subscription;
    }
