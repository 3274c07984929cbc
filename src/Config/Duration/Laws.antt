-- ===== src/Config/Duration/Laws.antt =====
-- The conversion of a count of days in internal/config/config.go.
use mathlib.Core.Path.{subst}
use gcp_emulator_provisioner.Prelude.{ℕ, ◌*◌, ◌≤◌, ◌≡◌, ◌↔◌, arith}
use gcp_emulator_provisioner.Prelude.Int.{ℤ, pos, ◌*ℤ◌, to_int64, IsInt64, to_int64-IsInt64}
use gcp_emulator_provisioner.Config.GoTime.{hour}
use gcp_emulator_provisioner.Config.Duration.{days_duration}

days_duration-IsInt64 : (days : ℤ) → IsInt64 (days_duration days)
unfolding days_duration
days_duration-IsInt64 days = to_int64-IsInt64 (to_int64 (days *ℤ pos 24) *ℤ pos hour)

days_exact : (n : ℕ) → n ≤ 106_751 → days_duration (pos n) ≡ pos (n * 24 * hour)
unfolding days_duration ◌*ℤ◌ to_int64
days_exact n h = ground arith

-- A count of days in the notation "Nd" that is not negative is converted exactly if it is at most
-- 106751, and to another duration if it is larger.
pub days_duration_exact : (n : ℕ) → (days_duration (pos n) ≡ pos (n * 24 * hour)) ↔ (n ≤ 106_751)
days_duration_exact n = (
  (λ e.
      let bounded : IsInt64 (pos (n * 24 * hour)) =
        subst IsInt64 e (days_duration-IsInt64 (pos n)) in
      omega (arith, bounded.0)),
  days_exact n,
)
