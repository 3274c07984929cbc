-- ===== src/Provisioner/Served/Topics.antt =====
-- Topics through the client of internal/client/pubsub.go.
use gcp_emulator_provisioner.Prelude.{◌≡◌, refl, sym, ◌∙◌, ap, none, some, List, [], ◌∷◌, Text, ok}
use gcp_emulator_provisioner.Client.Resources.{Topic, FieldPath}
use gcp_emulator_provisioner.Client.Errors.{getting_topic}
use gcp_emulator_provisioner.Client.Messages.{Durations, TopicMessage}
use gcp_emulator_provisioner.Client.Convert.{to_proto_topic, from_proto_topic}
use gcp_emulator_provisioner.Client.Convert.Laws.{IsSendableTopic, from_proto_topic-to_proto_topic}
use gcp_emulator_provisioner.Client.PubSub.{
  PubSubClient, create_answer, get_topic, create_topic, update_topic, admin,
}
use gcp_emulator_provisioner.Provisioner.Service.{
  Table, Support, answer_get, answer_create, answer_update,
}
use gcp_emulator_provisioner.Provisioner.Topics.Laws.{set_topic}
use gcp_emulator_provisioner.Provisioner.Topics.Convergence.{ServesTopics}
use gcp_emulator_provisioner.Provisioner.Served.{
  KeepsTopics, set_topic_field, wrapped, topic_context, topic_form, view-set_topic_field,
  read_found, update_found,
}

module _ {W D : Type 0} (c : PubSubClient W D) (lib : Durations D)
    (topics : Table W (TopicMessage D)) (u : Support)
    (keeps : KeepsTopics c.topics c.project_id topics u) where
  topic_updates :
      (t : Topic) (mask : List FieldPath) (live : TopicMessage D) (w : W)
      → topics.at w t.name ≡ some live
      → update_topic c lib t mask w
        ≡ answer_update topics
            ((topic_form lib c.project_id).set t)
            (wrapped topic_context u)
            t.name
            mask
            w
  unfolding update_topic
  topic_updates t [] live w h = rw h (ap (λ v. (ok tt, v)) (sym (topics.put-at t.name live w h)))
  topic_updates t (p ∷ mask) live w h =
      let sent = to_proto_topic lib c.project_id t in
      let answer = keeps.update t.name sent (p ∷ mask) live w (unfold to_proto_topic in refl) h in
      rw (answer, h)
        (update_found topics topic_context (set_topic_field sent) u t.name (p ∷ mask) w live)

  topic_creates :
      (t : Topic) (w : W)
      → topics.at w t.name ≡ none
      → create_topic c lib t w ≡ answer_create topics t.name (to_proto_topic lib c.project_id t) w
  unfolding create_topic create_answer
  topic_creates t w h =
      rw
        (keeps.create t.name (to_proto_topic lib c.project_id t) w (unfold to_proto_topic in refl)
          h)
        refl

  topic_reads :
      (n : Text) (w : W) → get_topic c lib n w ≡ answer_get (topic_form lib c.project_id) topics n w
  unfolding get_topic
  topic_reads n w =
      read_found topics (getting_topic n) (topic_form lib c.project_id) (topics.at w n) w _
        (keeps.get n w)

  topic_set :
      (t : Topic)
      → IsSendableTopic t
      → (p : FieldPath) (m : TopicMessage D)
      → from_proto_topic lib (set_topic_field (to_proto_topic lib c.project_id t) p m)
        ≡ set_topic t p (from_proto_topic lib m)
  topic_set t fit p m =
      view-set_topic_field lib (to_proto_topic lib c.project_id t) p m
      ∙ ap (λ x. set_topic x p (from_proto_topic lib m))
          (from_proto_topic-to_proto_topic lib c.project_id t fit)

  -- The client's calls for topics are those of the service that the reconciliation is proved against.
  pub admin-ServesTopics :
      ServesTopics
        (admin c lib)
        (topic_form lib c.project_id)
        topics
        (wrapped topic_context u)
        IsSendableTopic
  unfolding admin
  admin-ServesTopics = record {
    view-make = from_proto_topic-to_proto_topic lib c.project_id;
    view-set = topic_set;
    get = topic_reads;
    create = λ t w fit h. topic_creates t w h;
    update = λ t mask live w fit h. topic_updates t mask live w h;
  }
