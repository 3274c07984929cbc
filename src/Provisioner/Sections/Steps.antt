-- ===== src/Provisioner/Sections/Steps.antt =====
-- Which resources are there, and what follows a step of a section that returned no error.
use gcp_emulator_provisioner.Prelude.{
  ◌≡◌, refl, ◌∙◌, true, Bool-cases, inl, inr, Option, none, some, List, [], ◌∷◌, arith, Text, ok,
  ◌==◌, All, Result,
}
use gcp_emulator_provisioner.Config.Schema
use gcp_emulator_provisioner.Config.Validate.Subscriptions.{member}
use gcp_emulator_provisioner.Config.Validate.Resources.{declared_target}
use gcp_emulator_provisioner.Config.Validate.Sound.{topic_names}
use gcp_emulator_provisioner.Client.Resources.{Subscription, DeadLetterPolicy}
use gcp_emulator_provisioner.Client.Errors.{Error}
use gcp_emulator_provisioner.Provisioner.Effects.{Act, Run, annotate, ◌>>◌}
use gcp_emulator_provisioner.Provisioner.Service.{Table}
use gcp_emulator_provisioner.Provisioner.Subscriptions.Build.{build_dead_letter}

-- A resource of the name is there.
abbrev pub Has : {W R : Type 0} → Table W R → Text → W → Type 0
Has {R = R} table n w = (r : R) × (table.at w n ≡ some r)

pub Has-put :
    {W R : Type 0} (table : Table W R) (n : Text) (r : R) (j : Text) (w : W)
    → Has table j w
    → Has table j (table.put n r w)
Has-put table n r j w (held, h) = elim (Bool-cases (n == j)) [
  | inl same ↦ (r, table.at-put n r w j ∙ rw same refl)
  | inr differ ↦ (held, table.at-put n r w j ∙ rw differ h)
]

-- What follows a step that returned no error starts where the step ended.
annotate-ok :
    {W : Type 0} (f : Error → Error) (m n : Act W (Unit {0})) (s : Run W)
    → (m s).0 ≡ ok tt
    → (annotate f m >> n) s ≡ n (m s).1
annotate-ok f m n s h = rw h refl

pub then_after :
    {W : Type 0} (P : Result Error (Unit {0}) × Run W → Type 0) (f : Error → Error)
    (m n : Act W (Unit {0})) (s : Run W)
    → (m s).0 ≡ ok tt
    → P (n (m s).1)
    → P ((annotate f m >> n) s)
then_after P f m n s h x = rw (annotate-ok f m n s h) x

pub and_then :
    {W : Type 0} (P : Result Error (Unit {0}) × Run W → Type 0) (m n : Act W (Unit {0})) (s : Run W)
    → (m s).0 ≡ ok tt
    → P (n (m s).1)
    → P ((m >> n) s)
and_then P m n s h x = rw h x

module _ {W R : Type 0} (topics : Table W R) where
  -- Where the service creates a subscription
  abbrev pub HasTargets : Subscription → W → Type 0
  HasTargets d w =
      Has topics d.topic w
      × ((p : DeadLetterPolicy) → d.dead_letter ≡ some p → Has topics p.topic w)

  unfoldable pub Declared : List Text → W → Type 0
  Declared names w = (n : Text) → member n names ≡ true → Has topics n w

  pub Declared-topic_names :
      (ts : List Schema.Topic) (w : W)
      → All (λ t. Has topics t.name w) ts
      → Declared (topic_names ts) w
  unfolding Declared
  Declared-topic_names [] w h n e = cc
  Declared-topic_names (t ∷ ts) w ((held, here), rest) n e = elim (Bool-cases (n == t.name)) [
    | inl same ↦ (held, ground (arith, here))
    | inr differ ↦ Declared-topic_names ts w rest n (ground arith)
  ]

  pub targets_of :
      (names : List Text) (dl : Option Schema.DeadLetter) (w : W)
      → Declared names w
      → declared_target names dl ≡ true
      → (p : DeadLetterPolicy) → build_dead_letter dl ≡ some p
      → Has topics p.topic w
  unfolding Declared build_dead_letter
  targets_of names none w all_there h p e = cc
  targets_of names (some dl) w all_there h p e =
      let (t, there) = all_there dl.topic h in (t, ground (arith, there))
