-- ===== src/Client/Retry.antt =====
-- `retryUntilReady` of internal/client/client.go. The clock and the context are an input: for each
-- attempt, what the probe answered and whether the context had expired after it and in the wait.
pub mod Laws
pub mod Ends
use gcp_emulator_provisioner.Prelude.{
  ℕ, zero, suc, ◌*◌, ◌^◌, Bool, true, false, List, [], ◌∷◌, Text, ltb, if◌then◌else◌,
}
use gcp_emulator_provisioner.Config.GoTime.{second, minute}

abbrev pub max_retries : ℕ
max_retries = 15

abbrev pub initial_delay : ℕ
initial_delay = second

abbrev pub max_delay : ℕ
max_delay = 30 * second

abbrev pub total_timeout : ℕ
total_timeout = 5 * minute

pub record Attempt : Type 0 where
  pub ready : Bool
  pub expired : Bool
  pub expired_waiting : Bool

pub data Outcome : Type 0 where
  connected : Outcome
  -- the deadline passed in the probe, or in the wait behind it
  timed_out timed_out_waiting : Outcome
  exhausted : Outcome

-- The delay behind an attempt; the power is exact in floating point for every attempt of the loop.
unfoldable pub delay : ℕ → ℕ
delay attempt = let d = initial_delay * 2 ^ attempt in if ltb max_delay d then max_delay else d

module _ (attempts : ℕ → Attempt) where
  -- The loop from an attempt on, with the number of attempts that are left: the outcome and the
  -- delays that the log names, the last of which may not have passed.
  unfoldable pub retry_from : ℕ → ℕ → Outcome × List ℕ
  retry_from zero attempt = (exhausted, [])
  retry_from (suc left) attempt =
      let (outcome, delays) = retry_from left (suc attempt) in
      let a = attempts attempt in
      if a.ready
      then (connected, [])
      else if a.expired
      then (timed_out, [])
      else if a.expired_waiting
      then (timed_out_waiting, delay attempt ∷ [])
      else (outcome, delay attempt ∷ delays)

  unfoldable pub retry_until_ready : Outcome × List ℕ
  retry_until_ready = retry_from (suc max_retries) 0
