-- ===== src/Provisioner/Tests/Worlds.antt =====
-- A world of maps with the services over it, for the tests.
use mathlib.Core.Path.{fun_ext}
use gcp_emulator_provisioner.Prelude.{
  ◌≡◌, refl, ap, Bool, true, false, Option, none, some, arith, Text, codes, contains_text, ok, err,
  ◌==◌, if◌then◌else◌,
}
use gcp_emulator_provisioner.Client.Resources.{
  Topic, Subscription, Bucket, FieldPath, dead_letter_policy,
}
use gcp_emulator_provisioner.Client.Errors.{
  Error, missing, status, invalid_argument, is_unsupported_field,
}
use gcp_emulator_provisioner.Credentials.{System}
use gcp_emulator_provisioner.Provisioner.Admin.{Options, PubSubAdmin, StorageAdmin, Method}
use gcp_emulator_provisioner.Provisioner.Service.{
  Table, Support, as_sent, IsRefusing, answer_get, answer_create, answer_update,
}
use gcp_emulator_provisioner.Provisioner.Topics.Laws.{set_topic}
use gcp_emulator_provisioner.Provisioner.Topics.Convergence.{ServesTopics}
use gcp_emulator_provisioner.Provisioner.Subscriptions.Drifts.{set_subscription}
use gcp_emulator_provisioner.Provisioner.Subscriptions.Convergence.{ServesSubscriptions}
use gcp_emulator_provisioner.Provisioner.Buckets.Convergence.{ServesBuckets, found_bucket}
use gcp_emulator_provisioner.Provisioner.Sections.Steps.{HasTargets}
use gcp_emulator_provisioner.Provisioner.DryRun.{ReadsOnly}
use gcp_emulator_provisioner.Provisioner.Keys.Stability.{KeepsFiles, stat_answer}
use gcp_emulator_provisioner.Samples.{plain_runtime}

abbrev pub Store : Type 0 → Type 0
Store R = Text → Option R

module _ {R : Type 0} where
  abbrev pub store : Text → R → Store R → Store R
  store n r f j = if n == j then some r else f j

  pub store-store : (n : Text) (r r' : R) (f : Store R) → store n r (store n r' f) ≡ store n r f
  store-store n r r' f = fun_ext (λ j. ground arith)

  pub store_same : (n : Text) (r : R) (f : Store R) → f n ≡ some r → store n r f ≡ f
  store_same n r f h = fun_ext (λ j. ground arith)

pub record World : Type 0 where
  pub topics : Store Topic
  pub subscriptions : Store Subscription
  pub buckets : Store Bucket
  pub files : Store Text

abbrev pub topic_table : Table World Topic
topic_table = record {
  at = λ w n. w.topics n;
  put = λ n r w. record w { topics = store n r w.topics };
  at-put = λ n r w j. refl;
  put-put = λ n r r' w. ap (λ f. record w { topics = f }) (store-store n r r' w.topics);
  put-at = λ n r w h. ap (λ f. record w { topics = f }) (store_same n r w.topics h);
}

abbrev pub subscription_table : Table World Subscription
subscription_table = record {
  at = λ w n. w.subscriptions n;
  put = λ n r w. record w { subscriptions = store n r w.subscriptions };
  at-put = λ n r w j. refl;
  put-put =
      λ n r r' w. ap (λ f. record w { subscriptions = f }) (store-store n r r' w.subscriptions);
  put-at = λ n r w h. ap (λ f. record w { subscriptions = f }) (store_same n r w.subscriptions h);
}

abbrev pub bucket_table : Table World Bucket
bucket_table = record {
  at = λ w n. w.buckets n;
  put = λ n r w. record w { buckets = store n r w.buckets };
  at-put = λ n r w j. refl;
  put-put = λ n r r' w. ap (λ f. record w { buckets = f }) (store-store n r r' w.buckets);
  put-at = λ n r w h. ap (λ f. record w { buckets = f }) (store_same n r w.buckets h);
}

-- An emulator that cannot update a dead letter policy
abbrev pub supports_most : FieldPath → Bool
supports_most dead_letter_policy = false
supports_most _ = true

abbrev pub emulator_error : Error
emulator_error = status invalid_argument (codes "path is not a known field")

abbrev pub emulator_support : Support
emulator_support = record { supports = supports_most; refusal = λ n mask. emulator_error }

pub emulator_refuses : is_unsupported_field plain_runtime emulator_error ≡ true
unfolding is_unsupported_field contains_text
emulator_refuses = refl

abbrev pub emulator_refusing : IsRefusing plain_runtime emulator_support
emulator_refusing n mask = emulator_refuses

-- A subscription is created on a topic that is there.
abbrev pub create_on : Subscription → World → Option Topic → Method World (Unit {0})
create_on d w none v = (err missing, v)
create_on d w (some t) v = answer_create subscription_table d.name d v

abbrev pub emulator : PubSubAdmin World
emulator = record {
  get_topic = answer_get (as_sent set_topic) topic_table;
  create_topic = λ t. answer_create topic_table t.name t;
  update_topic = λ t mask. answer_update topic_table (set_topic t) emulator_support t.name mask;
  get_subscription = answer_get (as_sent set_subscription) subscription_table;
  create_subscription = λ d w. create_on d w (w.topics d.topic) w;
  update_subscription =
      λ d mask. answer_update subscription_table (set_subscription d) emulator_support d.name mask;
}

abbrev pub storage_server : StorageAdmin World
storage_server = record {
  get_bucket = λ n w. found_bucket w (w.buckets n);
  create_bucket = λ b w. (ok tt, bucket_table.put b.name b w);
  set_versioning = λ n v w. elim (w.buckets n) [
    | none ↦ (err missing, w)
    | some live ↦ (ok tt, bucket_table.put n (record live { versioning_enabled = v }) w)
  ];
}

pub emulator-ServesTopics :
    (accepts : Topic → Type 0)
    → ServesTopics emulator (as_sent set_topic) topic_table emulator_support accepts
emulator-ServesTopics accepts = record {
  view-make = λ t fit. refl;
  view-set = λ t fit p r. refl;
  get = λ n w. refl;
  create = λ t w fit h. refl;
  update = λ t mask live w fit h. refl;
}

pub emulator-ServesSubscriptions :
    (accepts : Subscription → Type 0)
    → ServesSubscriptions emulator
        (as_sent set_subscription)
        subscription_table
        emulator_support
        (λ d. d)
        accepts
        (HasTargets topic_table)
emulator-ServesSubscriptions accepts = record {
  view-make = λ d fit. refl;
  view-set = λ d fit p r. refl;
  get = λ n w. refl;
  create = λ d w fit h ((t, there), dead). ap (λ o. create_on d w o w) there;
  update = λ d mask live w fit h. refl;
}

pub storage-ServesBuckets : ServesBuckets storage_server bucket_table
storage-ServesBuckets = record {
  get = λ n w. refl;
  create = λ b w h. refl;
  set_versioning = λ n v live w h. rw h refl;
}

abbrev pub file_table : Table World Text
file_table = record {
  at = λ w n. w.files n;
  put = λ n r w. record w { files = store n r w.files };
  at-put = λ n r w j. refl;
  put-put = λ n r r' w. ap (λ f. record w { files = f }) (store-store n r r' w.files);
  put-at = λ n r w h. ap (λ f. record w { files = f }) (store_same n r w.files h);
}

abbrev pub system : System World
system = record {
  stat = λ p w. stat_answer p w (w.files p);
  dir = λ p. codes ".";
  make_directories = λ p m w. (ok tt, w);
  write_file = λ p c m w. (ok tt, record w { files = store p c w.files });
  generate_key = λ bits w. (ok (codes "key"), w);
  marshal_pkcs8 = λ k. ok k;
  encode_pem = λ t d. d;
  encode_json = λ k. ok k.private_key;
}

pub emulator-ReadsOnly : ReadsOnly emulator storage_server system
emulator-ReadsOnly = record {
  get_topic = λ n w. ground arith;
  get_subscription = λ n w. ground arith;
  get_bucket = λ n w. ground arith;
  stat = λ p w. ground arith;
}

abbrev pub empty_world : World
empty_world = record {
  topics = λ n. none;
  subscriptions = λ n. none;
  buckets = λ n. none;
  files = λ n. none;
}

abbrev pub applying : Options
applying = record { dry_run = false; compare_create_only_bucket_attrs = true }

abbrev pub dry : Options
dry = record { dry_run = true; compare_create_only_bucket_attrs = true }

pub system-KeepsFiles : KeepsFiles system file_table
system-KeepsFiles = record {
  stat = λ p w. (p, refl);
  write = λ p c m w. refl;
  make = λ d m w. refl;
  generate = λ bits w. (codes "key", refl);
  marshal = λ k. (k, refl);
  encode = λ k. (k.private_key, refl);
}
