-- ===== src/Client/Retry/Ends.antt =====
-- How the loop of `retryUntilReady` in internal/client/client.go ends, with the clock in its context.
use gcp_emulator_provisioner.Prelude.{
  ℕ, zero, suc, ◌+◌, ◌-◌, ◌*◌, ◌≤◌, ◌≡◌, ◌≢◌, refl, List, [], ◌∷◌, true, arith, length,
}
use gcp_emulator_provisioner.Config.GoTime.{second}
use gcp_emulator_provisioner.Client.Retry.{
  Attempt, exhausted, total_timeout, max_retries, delay, retry_from, retry_until_ready,
}

-- The time that the waits before an attempt take
abbrev pub elapsed : ℕ → ℕ
elapsed zero = 0
elapsed (suc n) = elapsed n + delay n

abbrev pub sum : List ℕ → ℕ
sum [] = 0
sum (n ∷ ns) = n + sum ns

elapsed_mono : (k m n : ℕ) → m + k ≡ n → elapsed m ≤ elapsed n
elapsed_mono zero m n h = let same : m ≡ n = omega (arith, h) in rw same (omega arith)
elapsed_mono (suc k) m zero h = absurd (omega (arith, h))
elapsed_mono (suc k) m (suc n) h = omega (arith, elapsed_mono k m n (omega (arith, h)))

elapsed_14 : elapsed 14 ≡ 301 * second
unfolding delay
elapsed_14 = refl

module _ (attempts : ℕ → Attempt) where
  retry_from-ends :
      (k left attempt deadline : ℕ)
      → suc k ≤ left
      → attempt + k ≡ deadline
      → (attempts deadline).expired_waiting ≡ true
      → let r = retry_from attempts left attempt in (r.0 ≢ exhausted) × (length r.1 ≤ suc k)
  unfolding retry_from
  retry_from-ends k zero attempt deadline h e late = absurd (omega (arith, h))
  retry_from-ends zero (suc left) attempt deadline h e late =
      let here : attempt ≡ deadline = omega (arith, e) in rw here (ground arith)
  retry_from-ends (suc k) (suc left) attempt deadline h e late =
      let (never, short) =
        retry_from-ends k left (suc attempt) deadline (omega (arith, h)) (omega (arith, e)) late in
      ground arith

  -- The delays of the log are those behind the attempts, in their order.
  sum-retry_from :
      (left attempt last : ℕ)
      → let r = retry_from attempts left attempt in
        length r.1 + attempt ≡ last → sum r.1 + elapsed attempt ≡ elapsed last
  unfolding retry_from
  sum-retry_from zero attempt last h =
      let same : attempt ≡ last = omega (arith, h) in rw same (omega arith)
  sum-retry_from (suc left) attempt last h = ground (arith, sum-retry_from left (suc attempt) last)

  -- The context expires in each wait whose end is not before its deadline.
  abbrev pub KeepsTime : Type 0
  KeepsTime = (n : ℕ) → total_timeout ≤ elapsed (suc n) → (attempts n).expired_waiting ≡ true

  -- Where the context expires in each wait whose end is not before the deadline of five minutes,
  -- whatever the service answers: the wait for it ends by the end of the fourteenth delay, the delays
  -- add up to 301 seconds at most, and it connects or reports a timeout, and never that the attempts
  -- ran out. What the probes take is not counted.
  pub retry_until_ready-ends :
      KeepsTime
      → ((retry_until_ready attempts).0 ≢ exhausted)
        × (length (retry_until_ready attempts).1 ≤ 14)
        × (sum (retry_until_ready attempts).1 ≤ 301 * second)
  unfolding retry_until_ready
  retry_until_ready-ends time =
      let (never, short) =
        retry_from-ends 13 (suc max_retries) 0 13 (omega arith) (omega arith)
          (time 13 (unfold delay in omega arith)) in
      let waits = length (retry_from attempts (suc max_retries) 0).1 in
      (
        never,
        short,
        omega (
          arith,
          sum-retry_from (suc max_retries) 0 waits (omega arith),
          elapsed_mono (14 - waits) waits 14 (omega (arith, short)),
          elapsed_14,
        ),
      )
