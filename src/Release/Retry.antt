-- ===== src/Release/Retry.antt =====
-- The delay before a stage command is sent again
-- (releaseStageRetryDelay of edge/operator/internal/controller/wasmfunction_controller.go).
use sertay_thesis.Prelude.{ℕ, zero, suc, ◌≡◌, refl, arith, if◌then◌else◌}
use sertay_thesis.Prelude.Int.{ℤ, pos, negsuc, ltb_ℤ}
use sertay_thesis.Release.{
  release_stage_retry_base, release_stage_retry_max, double_delay, rounds_of,
  release_stage_retry_delay,
}

double_delay-max :
    (rounds : ℕ) → double_delay rounds release_stage_retry_max ≡ release_stage_retry_max
unfolding double_delay
double_delay-max zero = refl
double_delay-max (suc rounds) = refl

double_delay-base :
    (rounds : ℕ) → double_delay (suc rounds) release_stage_retry_base ≡ release_stage_retry_max
unfolding double_delay
double_delay-base rounds = double_delay-max rounds

-- The delay is 30 seconds up to the first attempt, and 60 seconds from the second on.
pub retry_delay_closed :
    (attempts : ℤ)
    → release_stage_retry_delay attempts
      ≡ (if ltb_ℤ attempts (pos 2) then release_stage_retry_base else release_stage_retry_max)
unfolding release_stage_retry_delay rounds_of double_delay
retry_delay_closed (pos zero) = refl
retry_delay_closed (pos (suc zero)) = refl
retry_delay_closed (pos (suc (suc n))) = ground (arith, double_delay-base n)
retry_delay_closed (negsuc n) = ground arith
