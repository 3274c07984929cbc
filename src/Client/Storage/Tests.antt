-- ===== src/Client/Storage/Tests.antt =====
-- The theorems on the calls of internal/client/storage.go at a service that refuses every call.
use gcp_emulator_provisioner.Prelude.{◌≡◌, refl, true, codes, ok, contains_text, has_prefix}
use gcp_emulator_provisioner.Client.Resources.{Bucket}
use gcp_emulator_provisioner.Client.Storage.{create_bucket}
use gcp_emulator_provisioner.Client.Storage.Laws.{create_bucket-misread}
use gcp_emulator_provisioner.Client.Samples.{refusing_storage}
use gcp_emulator_provisioner.Samples.{plain_runtime}

abbrev logs : Bucket
logs = record {
  name = codes "logs-409";
  versioning_enabled = true;
  location = codes "";
  storage_class = codes "";
}

logs_number : contains_text logs.name (codes "409") ≡ true
unfolding contains_text has_prefix
logs_number = refl

create_bucket-misread_example : create_bucket plain_runtime refusing_storage logs 1 ≡ (ok tt, 1)
create_bucket-misread_example =
    create_bucket-misread plain_runtime refusing_storage logs 1 1 403 (codes "denied on bucket ")
      (codes " for nobody") logs_number refl
