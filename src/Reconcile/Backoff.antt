-- ===== src/Reconcile/Backoff.antt =====
-- The delays of the reconcile loop (requeueOnError and requeuePendingRelease of
-- edge/operator/internal/controller/wasmfunction_controller.go).
use sertay_thesis.Prelude.{zero, suc, ◌≡◌, refl, ◌+◌, ◌*◌, ◌≤◌, ◌<◌, some, arith, if◌then◌else◌}
use sertay_thesis.Prelude.Int.{ℤ, pos, negsuc, ltb_ℤ}
use sertay_thesis.Prelude.Text.{String}
use sertay_thesis.Prelude.Time.{Time, Duration, second}
use sertay_thesis.Api.{WasmFunction}
use sertay_thesis.Release.{
  normalize_artifact_digest, release_delivery_state, release_stage_retry_delay,
}
use sertay_thesis.Release.Retry.{retry_delay_closed}
use sertay_thesis.Artifact.Http.{ok}
use sertay_thesis.Control.Exec.{Control}
use sertay_thesis.Control.Stage.{
  at_least_one, next_attempt, last_stage_send, too_early, claim_release_stage_attempt,
}
use sertay_thesis.Reconcile.Requeue.{error_delay, pending_delay, requeue_pending_release}

-- The delay after an error is 5 seconds up to the first retry, 10 and 20 for the next two and 40
-- from the fourth on: the limit of 60 seconds is never reached.
pub error_delay_closed :
    (count : ℤ)
    → error_delay count ≡ (
        if ltb_ℤ count (pos 2)
        then 5 * second
        else if ltb_ℤ count (pos 3)
        then 10 * second
        else if ltb_ℤ count (pos 4)
        then 20 * second
        else 40 * second)
unfolding error_delay
error_delay_closed (pos zero) = refl
error_delay_closed (pos (suc zero)) = refl
error_delay_closed (pos (suc (suc zero))) = refl
error_delay_closed (pos (suc (suc (suc zero)))) = refl
error_delay_closed (pos (suc (suc (suc (suc n))))) = ground arith
error_delay_closed (negsuc n) = ground arith

pending_delay_lem :
    (sent now : Time) (wait : Duration)
    → second ≤ wait
    → sent ≤ now
    → (0 < pending_delay (some sent) wait now)
      × (pending_delay (some sent) wait now ≤ wait)
      × (sent + wait ≤ now + pending_delay (some sent) wait now)
unfolding pending_delay
pending_delay_lem sent now wait long past = ground arith

retry_delay_bounds :
    (attempts : ℤ)
    → (second ≤ release_stage_retry_delay attempts)
      × (release_stage_retry_delay attempts ≤ 60 * second)
retry_delay_bounds attempts = ground (arith, retry_delay_closed attempts)

-- Where the delivery awaits the acknowledgement of a stage command that was last sent at `sent`,
-- the next run comes after a positive time of at most 60 seconds, and at that run the stage command
-- is claimed again, if it is still the last one that the operator knows of.
pub stage_requeue_claims :
    (wf : WasmFunction) (s : Control) (id : String) (sent now : Time)
    → release_delivery_state wf (normalize_artifact_digest wf.spec.release.artifact_digest)
      ≡ "AwaitingStageAck"
    → wf.status.last_stage_command_time ≡ some sent
    → sent ≤ now
    → last_stage_send s id ≡ record { sent_at = sent; attempts = wf.status.stage_command_attempts }
    → (delay : Duration) × ((requeue_pending_release wf now ≡ some delay)
        × (0 < delay)
        × (delay ≤ 60 * second)
        × ((claim_release_stage_attempt id (now + delay) s).0
            ≡ ok (some (next_attempt (last_stage_send s id)))))
unfolding requeue_pending_release claim_release_stage_attempt too_early
stage_requeue_claims wf s id sent now awaiting at past known =
    let wait = release_stage_retry_delay (at_least_one wf.status.stage_command_attempts) in
    let delay = pending_delay (some sent) wait now in
    let bounds = retry_delay_bounds (at_least_one wf.status.stage_command_attempts) in
    let (positive, short, reached) = pending_delay_lem sent now wait bounds.0 past in
    (
      delay,
      (
        simp (awaiting, at) refl,
        positive,
        omega (arith, short, bounds.1),
        rw known (ground (arith, reached)),
      ),
    )
