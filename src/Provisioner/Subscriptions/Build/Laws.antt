-- ===== src/Provisioner/Subscriptions/Build/Laws.antt =====
-- What `buildSubscription` returns.
use gcp_emulator_provisioner.Prelude.{◌≡◌, Text, ok, arith}
use gcp_emulator_provisioner.Config.Schema
use gcp_emulator_provisioner.Client.Resources.{Subscription}
use gcp_emulator_provisioner.Provisioner.Subscriptions.Build.{build_subscription, build_dead_letter}
use gcp_emulator_provisioner.Runtime.{Runtime}

pub name-build_subscription :
    (rt : Runtime) (topic : Text) (s : Schema.Subscription) {d : Subscription}
    → build_subscription rt topic s ≡ ok d
    → d.name ≡ s.name
unfolding build_subscription
name-build_subscription rt topic s h = ground arith

pub topics-build_subscription :
    (rt : Runtime) (topic_name : Text) (s : Schema.Subscription) {d : Subscription}
    → build_subscription rt topic_name s ≡ ok d
    → (d.topic ≡ topic_name) × (d.dead_letter ≡ build_dead_letter s.dead_letter)
unfolding build_subscription
topics-build_subscription rt topic_name s h = (ground arith, ground arith)
