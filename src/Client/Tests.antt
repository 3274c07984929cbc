-- ===== src/Client/Tests.antt =====
-- The theorems on internal/client at concrete data.
use gcp_emulator_provisioner.Prelude.{
  contains_text, text_dec, ℕ, ◌+◌, ◌*◌, ◌≤◌, ◌≡◌, refl, true, false, [], ◌∷◌, List, codes, ltb, leb,
  not, arith, length, ◌≢◌,
}
use gcp_emulator_provisioner.Config.GoTime.{second}
use gcp_emulator_provisioner.Client.Endpoint.{
  storage_endpoint, complete_path, has_suffix, trim_slash, with_scheme,
}
use gcp_emulator_provisioner.Client.Retry.{
  Attempt, connected, exhausted, total_timeout, delay, retry_until_ready,
}
use gcp_emulator_provisioner.Client.Retry.Ends.{elapsed, sum, retry_until_ready-ends}
use gcp_emulator_provisioner.Client.Retry.Laws.{retry_until_ready-connected}

-- A service that is ready at its third attempt
abbrev slow_start : ℕ → Attempt
slow_start n = record { ready = not (ltb n 2); expired = false; expired_waiting = false }

abbrev waited : List ℕ
waited = second ∷ 2 * second ∷ []

retry_until_ready-connected_example : retry_until_ready slow_start ≡ (connected, waited)
unfolding delay
retry_until_ready-connected_example =
    retry_until_ready-connected slow_start 2 (omega arith)
      (refl, refl, refl, (refl, refl, refl, tt)) refl

endpoints :
    (storage_endpoint (codes "gcs:4443") ≡ codes "http://gcs:4443/storage/v1/")
    × (storage_endpoint (codes "https://gcs/") ≡ codes "https://gcs/storage/v1/")
    × (storage_endpoint (codes "http://gcs/storage/v1/") ≡ codes "http://gcs/storage/v1/")
unfolding storage_endpoint complete_path has_suffix trim_slash with_scheme contains_text text_dec
endpoints = (refl, refl, refl)

-- A service that is never ready, under a context that expires with its deadline
abbrev never_ready : ℕ → Attempt
never_ready n = record {
  ready = false;
  expired = false;
  expired_waiting = leb total_timeout (elapsed n + delay n);
}

never_ready_time :
    (n : ℕ) → total_timeout ≤ elapsed n + delay n → (never_ready n).expired_waiting ≡ true
never_ready_time n h = ground (arith, h)

retry_until_ready-ends_example :
    ((retry_until_ready never_ready).0 ≢ exhausted)
    × (length (retry_until_ready never_ready).1 ≤ 14)
    × (sum (retry_until_ready never_ready).1 ≤ 301 * second)
retry_until_ready-ends_example = retry_until_ready-ends never_ready never_ready_time
