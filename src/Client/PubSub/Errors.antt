-- ===== src/Client/PubSub/Errors.antt =====
-- Errors of the calls of internal/client/pubsub.go.
use gcp_emulator_provisioner.Prelude.{
  ◌≡◌, refl, Bool, Bool-cases, inl, inr, true, false, arith, Text, Result, err,
  contains_text-append, codes,
}
use gcp_emulator_provisioner.Client.Errors.{
  Error, Context, wrap, missing, is_missing, is_not_found, is_unsupported_field, message,
  message-wrap, is_invalid_argument, getting_topic, getting_subscription,
}
use gcp_emulator_provisioner.Client.Messages.{Durations}
use gcp_emulator_provisioner.Client.Paths.{topic_path, subscription_path}
use gcp_emulator_provisioner.Client.PubSub.{PubSubClient, read_answer, get_topic, get_subscription}
use gcp_emulator_provisioner.Runtime.{Runtime}

-- The call returned an error, and the test on that error has the given answer.
abbrev pub FailsWith : {A : Type 0} → (Error → Bool) → Bool → Result Error A → Type 0
FailsWith test answer r = (e : Error) × (r ≡ err e) × (test e ≡ answer)

-- Wrapping does not hide that a field was refused.
pub is_unsupported_field-wrap :
    (rt : Runtime) (c : Context) (e : Error)
    → is_unsupported_field rt e ≡ true
    → is_unsupported_field rt (wrap c e) ≡ true
unfolding is_unsupported_field is_invalid_argument
is_unsupported_field-wrap rt c e h =
    let (a, b, m) = message-wrap rt c e in
    rw m (
      ground (
        arith,
        contains_text-append a (message rt e) b (codes "is not a known"),
        contains_text-append a (message rt e) b
            (codes "currently unsupported in the Pub/Sub Emulator"),
      ))

read_answer_missing :
    {A B : Type 0} (c : Context) (convert : A → B) (e : Error)
    → is_missing e ≡ false
    → FailsWith is_missing (is_not_found e) (read_answer c convert (err e))
unfolding read_answer is_missing
read_answer_missing c convert e h = elim (Bool-cases (is_not_found e)) [
  | inl p ↦ rw p (missing, refl, refl)
  | inr p ↦ rw p (wrap c e, refl, h)
]

module _ {W D : Type 0} (c : PubSubClient W D) (lib : Durations D) where
  -- Where the service answers the read of a topic and that of a subscription with errors, other than
  -- the program's own, the caller gets an error that tests as `ErrNotFound` exactly when the
  -- service's has the code NotFound.
  pub get_missing :
      (name : Text) (w : W) (e e' : Error)
      → (c.topics.get_topic (topic_path c.project_id name) w).0 ≡ err e
      → (c.subs.get_subscription (subscription_path c.project_id name) w).0 ≡ err e'
      → is_missing e ≡ false
      → is_missing e' ≡ false
      → FailsWith is_missing (is_not_found e) (get_topic c lib name w).0
        × FailsWith is_missing (is_not_found e') (get_subscription c lib name w).0
  unfolding get_topic get_subscription
  get_missing name w e e' answer answer' h h' = (
    rw answer (read_answer_missing (getting_topic name) _ e h),
    rw answer' (read_answer_missing (getting_subscription name) _ e' h'),
  )
