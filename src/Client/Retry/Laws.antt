-- ===== src/Client/Retry/Laws.antt =====
-- Attempts and delays of `retryUntilReady` in internal/client/client.go.
use gcp_emulator_provisioner.Prelude.{
  ℕ, zero, suc, ◌+◌, ◌^◌, ◌≤◌, ◌≡◌, refl, sym, ap, ◌∙◌, true, false, List, [], ◌∷◌, arith,
}
use gcp_emulator_provisioner.Client.Retry.{
  Attempt, connected, max_retries, max_delay, initial_delay, delay, retry_from, retry_until_ready,
}

power_positive : (n : ℕ) → 1 ≤ 2 ^ n
power_positive zero = omega arith
power_positive (suc n) = omega (arith, power_positive n)

-- A delay lies between one second and thirty, both included, and no delay is shorter than the one
-- before it.
delay_bounds :
    (attempt : ℕ)
    → (initial_delay ≤ delay attempt)
      × (delay attempt ≤ max_delay)
      × (delay attempt ≤ delay (suc attempt))
unfolding delay
delay_bounds attempt =
    (ground (arith, power_positive attempt), ground arith, ground (arith, power_positive attempt))

-- The delays behind a number of attempts
abbrev pub delays_from : ℕ → ℕ → List ℕ
delays_from zero attempt = []
delays_from (suc n) attempt = delay attempt ∷ delays_from n (suc attempt)

module _ (attempts : ℕ → Attempt) where
  -- The attempts from one on, as many as the number says, found the service not ready and the
  -- context alive.
  abbrev pub Waits : ℕ → ℕ → Type 0
  Waits zero attempt = Unit
  Waits (suc n) attempt =
      ((attempts attempt).ready ≡ false)
      × ((attempts attempt).expired ≡ false)
      × ((attempts attempt).expired_waiting ≡ false)
      × Waits n (suc attempt)

  retry_from-connected :
      (n left attempt target : ℕ)
      → suc n ≤ left
      → target ≡ n + attempt
      → Waits n attempt
      → (attempts target).ready ≡ true
      → retry_from attempts left attempt ≡ (connected, delays_from n attempt)
  unfolding retry_from
  retry_from-connected zero zero attempt target h e waits ready = absurd (omega (arith, h))
  retry_from-connected (suc n) zero attempt target h e waits ready = absurd (omega (arith, h))
  retry_from-connected zero (suc left) attempt target h e waits ready =
      let here : target ≡ attempt = omega (arith, e) in
      let now : (attempts attempt).ready ≡ true = ap (λ t. (attempts t).ready) (sym here) ∙ ready in
      rw now refl
  retry_from-connected (suc n) (suc left) attempt target h e (a, b, c, waits) ready =
      rw
        (
          a,
          b,
          c,
          retry_from-connected n left (suc attempt) target (omega (arith, h)) (omega (arith, e))
              waits ready,
        )
        refl

  -- If the service is ready at an attempt that the loop reaches with the context alive, the
  -- connection is made, after the delays of the attempts before it and no other.
  pub retry_until_ready-connected :
      (n : ℕ)
      → n ≤ max_retries
      → Waits n 0
      → (attempts n).ready ≡ true
      → retry_until_ready attempts ≡ (connected, delays_from n 0)
  unfolding retry_until_ready
  retry_until_ready-connected n h waits ready =
      retry_from-connected n (suc max_retries) 0 n (omega (arith, h)) (omega arith) waits ready
