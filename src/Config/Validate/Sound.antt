-- ===== src/Config/Validate/Sound.antt =====
-- What a configuration of topics and subscriptions has that validation accepts.
use gcp_emulator_provisioner.Prelude.{
  ℕ, suc, ◌≡◌, true, false, List, [], ◌∷◌, ◌++◌, arith, Text, codes, is_empty, has_prefix, ok,
  >>-eq-ok, All,
}
use gcp_emulator_provisioner.Config.Schema.{Topic, Subscription}
use gcp_emulator_provisioner.Config.Strategy.{valid_strategy}
use gcp_emulator_provisioner.Config.Names.{contains_null_byte, matches_resource_name}
use gcp_emulator_provisioner.Config.Problem.{Location, index}
use gcp_emulator_provisioner.Config.Validate.Fields.{
  ◌▸◌, validate_strategy, validate_duration_range, min_message_retention, max_message_retention,
}
use gcp_emulator_provisioner.Config.Validate.Subscriptions.{
  member, validate_name, validate_settings, validate_subscriptions_from,
}
use gcp_emulator_provisioner.Config.Validate.Ranges.{Within}
use gcp_emulator_provisioner.Config.Validate.Settings.{
  NoNullBytes, IsSettings, validate_settings-IsSettings,
}
use gcp_emulator_provisioner.Config.Validate.Seen.{seen_after, Fresh}
use gcp_emulator_provisioner.Runtime.{Runtime}

abbrev pub subscription_names : List Subscription → List Text
subscription_names [] = []
subscription_names (s ∷ subs) = s.name ∷ subscription_names subs

abbrev pub topic_names : List Topic → List Text
topic_names [] = []
topic_names (t ∷ topics) = t.name ∷ topic_names topics

-- The names of all subscriptions of the project
abbrev pub all_subscription_names : List Topic → List Text
all_subscription_names [] = []
all_subscription_names (t ∷ topics) =
    subscription_names t.subscriptions ++ all_subscription_names topics

pub strategy_sound :
    (at : Location) (v : Text) → validate_strategy at v ≡ ok tt → valid_strategy v ≡ true
unfolding validate_strategy
strategy_sound at v h = ground arith

-- A name that Pub/Sub takes: of its pattern, and without the prefix that it reserves
pub record IsName (name : Text) : Type 0 where
  pub nonempty : is_empty name ≡ false
  pub no_null : contains_null_byte name ≡ false
  pub matches : matches_resource_name name ≡ true
  pub unreserved : has_prefix name (codes "goog") ≡ false

pub validate_name-IsName :
    (at : Location) (name : Text) (seen : List Text)
    → validate_name at name seen ≡ ok tt
    → IsName name × (member name seen ≡ false)
unfolding validate_name
validate_name-IsName at name seen h = (
  record {
    nonempty = ground arith;
    no_null = ground arith;
    matches = ground arith;
    unreserved = ground arith;
  },
  ground arith,
)

module _ (rt : Runtime) where
  -- A subscription that passed each of its checks, wherever it stands in the file
  pub record IsChecked (s : Subscription) : Type 0 where
    pub strategy : valid_strategy s.strategy ≡ true
    pub name : IsName s.name
    pub valid : IsSettings rt s
    pub at : Location
    pub settings : validate_settings rt at s ≡ ok tt

  pub record IsCheckedTopic (t : Topic) : Type 0 where
    pub strategy : valid_strategy t.strategy ≡ true
    pub name : IsName t.name
    pub labels : NoNullBytes t.labels
    pub in_range : Within rt t.message_retention min_message_retention max_message_retention
    pub at : Location
    pub retention :
        validate_duration_range rt at t.message_retention min_message_retention
          max_message_retention
        ≡ ok tt
    pub subscriptions : All IsChecked t.subscriptions

  pub subscriptions_sound :
      (i : ℕ) (at : Location) (subs : List Subscription) (seen seen' : List Text)
      → validate_subscriptions_from rt i at subs seen ≡ ok seen'
      → (seen' ≡ seen_after seen (subscription_names subs))
        × Fresh seen (subscription_names subs)
        × All IsChecked subs
  unfolding validate_subscriptions_from
  subscriptions_sound i at [] seen seen' h = (ground arith, tt, tt)
  subscriptions_sound i at (s ∷ subs) seen seen' h =
      let prefix : Location = (at ▸ "subscriptions") ++ (index i ∷ []) in
      let (strategy, h1) = >>-eq-ok (validate_strategy (prefix ▸ "strategy") s.strategy) _ h in
      let (name, h2) = >>-eq-ok (validate_name (prefix ▸ "name") s.name seen) _ h1 in
      let (settings, h3) = >>-eq-ok (validate_settings rt prefix s) _ h2 in
      let (after, fresh, checked) = subscriptions_sound (suc i) at subs (s.name ∷ seen) seen' h3 in
      let (named, new) = validate_name-IsName (prefix ▸ "name") s.name seen name in
      (
        after,
        (new, fresh),
        (
          record {
            strategy = strategy_sound (prefix ▸ "strategy") s.strategy strategy;
            name = named;
            valid = validate_settings-IsSettings rt prefix s settings;
            at = prefix;
            settings = settings;
          },
          checked,
        ),
      )
