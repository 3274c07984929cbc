-- ===== src/Client/PubSub/Tests.antt =====
-- The theorems on the calls of internal/client/pubsub.go at services that refuse every call.
use gcp_emulator_provisioner.Prelude.{◌≡◌, refl, false, codes}
use gcp_emulator_provisioner.Client.Errors.{is_missing, is_not_found}
use gcp_emulator_provisioner.Client.PubSub.{close, get_topic, get_subscription}
use gcp_emulator_provisioner.Client.PubSub.Errors.{FailsWith, get_missing}
use gcp_emulator_provisioner.Client.Connect.{connect_pubsub}
use gcp_emulator_provisioner.Client.Connect.Laws.{Opens, connect_pubsub-Opens}
use gcp_emulator_provisioner.Client.Samples.{
  absent, plain_durations, refusing_client, counting_library, connections, counting_library_counts,
  no_deadline,
}

absent_is_foreign : is_missing absent ≡ false
unfolding is_missing
absent_is_foreign = refl

get_missing_example :
    FailsWith is_missing
      (is_not_found absent)
      (get_topic refusing_client plain_durations (codes "orders") 2).0
    × FailsWith is_missing
        (is_not_found absent)
        (get_subscription refusing_client plain_durations (codes "orders") 2).0
get_missing_example =
    get_missing refusing_client plain_durations (codes "orders") 2 absent absent refl refl
      absent_is_foreign absent_is_foreign

connect_pubsub-Opens_example :
    Opens connections 2
      (λ c v. (close c v).1)
      3
      (connect_pubsub counting_library no_deadline (codes "local-dev") (codes "pubsub:8085") 3)
connect_pubsub-Opens_example =
    connect_pubsub-Opens connections counting_library no_deadline counting_library_counts
      (codes "local-dev") (codes "pubsub:8085") 3
