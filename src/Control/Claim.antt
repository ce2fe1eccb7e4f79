-- ===== src/Control/Claim.antt =====
-- How often a stage command is sent (claimReleaseStageAttempt of
-- edge/operator/internal/controller/wasmfunction_controller.go).
use sertay_thesis.Prelude.{◌+◌, ◌≤◌, ◌<◌, ◌≡◌, true, false, not, ◌||◌, none, some, arith}
use sertay_thesis.Prelude.Int.{ℤ, pos, ltb_ℤ, leb_ℤ, ◌≤ℤ◌}
use sertay_thesis.Prelude.Text.{String, text_eq, text_eq_refl}
use sertay_thesis.Prelude.Time.{Time, is_zero}
use sertay_thesis.Prelude.Maps.{namespaced_name_eq, lookup, lookup-insert, beq_refl}
use sertay_thesis.Api.{WasmFunction, key_of}
use sertay_thesis.Release.{
  device_release_ready, device_release_staged, device_release_active, stage_command_id, no_release,
  release_delivery_state, release_stage_retry_delay, release_stage_retry_base,
  release_stage_retry_max,
}
use sertay_thesis.Release.Retry.{retry_delay_closed}
use sertay_thesis.Artifact.Http.{ok}
use sertay_thesis.Artifact.Reconcile.{ArtifactDecision}
use sertay_thesis.Control.Exec.{Control}
use sertay_thesis.Control.Stage.{
  LastSend, send_in_status, later_send, last_stage_send, at_least_one, next_attempt, too_early,
  claim_release_stage_attempt,
}

retry_delay-ge : (n : ℤ) → 30000000000 ≤ release_stage_retry_delay n
retry_delay-ge n = ground (arith, retry_delay_closed n)

-- After a claim the operator remembers it under the key of the resource.
remembered :
    (id : String) (now : Time) (s : Control) {n : ℤ}
    → (claim_release_stage_attempt id now s).0 ≡ ok (some n)
    → lookup (key_of s.wf) (claim_release_stage_attempt id now s).1.stage_sends
      ≡ some (record { command_id = id; sent_at = now; attempts = n })
unfolding claim_release_stage_attempt
remembered id now s h = ground (
  arith,
  lookup-insert (key_of s.wf) (key_of s.wf)
      (record { command_id = id; sent_at = now; attempts = next_attempt (last_stage_send s id) })
      s.stage_sends,
  beq_refl (key_of s.wf),
)

-- A remembered send of 30 seconds ago or less is too early to repeat, whatever the status holds
-- from before.
too_early_again :
    (wf : WasmFunction) (id : String) (now later : Time) (n : ℤ)
    → 0 < now
    → (send_in_status wf id).sent_at ≤ now
    → later < now + release_stage_retry_base
    → too_early
        (later_send
          (some (record { command_id = id; sent_at = now; attempts = n }))
          id
          (send_in_status wf id))
        later
      ≡ true
unfolding too_early later_send
too_early_again wf id now later n z st l = rw (text_eq_refl id) (
    ground (
      arith,
      retry_delay-ge (at_least_one n),
      retry_delay-ge (at_least_one (send_in_status wf id).attempts),
    ))

last_of_remembered :
    (s : Control) (id : String) {now : Time} {n : ℤ}
    → lookup (key_of s.wf) s.stage_sends
      ≡ some (record { command_id = id; sent_at = now; attempts = n })
    → last_stage_send s id
      ≡ later_send
          (some (record { command_id = id; sent_at = now; attempts = n }))
          id
          (send_in_status s.wf id)
unfolding last_stage_send
last_of_remembered s id h = rw h

pub claim_of_early :
    (id : String) (later : Time) (s : Control)
    → too_early (last_stage_send s id) later ≡ true
    → claim_release_stage_attempt id later s ≡ (ok none, s)
unfolding claim_release_stage_attempt
claim_of_early id later s h = rw h

retry_delay-le : (n : ℤ) → release_stage_retry_delay n ≤ 60000000000
retry_delay-le n = ground (arith, retry_delay_closed n)

-- After an attempt was claimed for a command, the same command of the same resource is claimed
-- again at the earliest 30 seconds later: a claim before that changes nothing, whatever status the
-- resource has by then, as long as that shows no later send of the command.
pub claim_waits :
    (id : String) (now later : Time) (s : Control) (wf' : WasmFunction) {n : ℤ}
    → (claim_release_stage_attempt id now s).0 ≡ ok (some n)
    → key_of wf' ≡ key_of s.wf
    → 0 < now
    → (send_in_status wf' id).sent_at ≤ now
    → later < now + release_stage_retry_base
    → let s' = record (claim_release_stage_attempt id now s).1 { wf = wf' } in
      claim_release_stage_attempt id later s' ≡ (ok none, s')
claim_waits id now later s wf' {n} claimed same z st l =
    let s' = record (claim_release_stage_attempt id now s).1 { wf = wf' } in
    claim_of_early id later s' (
      rw (last_of_remembered s' id {now = now} {n = n} (rw same (remembered id now s claimed)))
        (too_early_again wf' id now later n z st l))

-- 60 seconds after the last send that the status or the operator knows of, the command is claimed.
pub claim_after_max :
    (id : String) (now : Time) (s : Control)
    → (last_stage_send s id).sent_at + release_stage_retry_max ≤ now
    → (claim_release_stage_attempt id now s).0 ≡ ok (some (next_attempt (last_stage_send s id)))
unfolding claim_release_stage_attempt too_early
claim_after_max id now s h =
    ground (arith, retry_delay-le (at_least_one (last_stage_send s id).attempts))

-- The number of a claimed attempt is positive, and is 1 exactly when no send was known.
pub claimed_attempt :
    (last : LastSend)
    → (pos 1 ≤ℤ next_attempt last) × (ltb_ℤ (next_attempt last) (pos 2) ≡ is_zero last.sent_at)
unfolding next_attempt
claimed_attempt last = ground arith

-- A release is declared that the device lacks, and an attempt to stage it was claimed.
pub record IsClaimed (now : Time) (a : ArtifactDecision) (s : Control) : Type 0 where
  pub declared :
      (not a.enabled || text_eq a.desired_digest "" || leb_ℤ s.wf.spec.release.generation (pos 0))
      ≡ false
  pub lacking : device_release_ready s.wf a.desired_digest ≡ false
  pub claimed :
      (claim_release_stage_attempt (stage_command_id s.wf a.desired_digest) now s).0
      ≡ ok (some (next_attempt (last_stage_send s (stage_command_id s.wf a.desired_digest))))

pub claimed-awaits :
    (now : Time) (a : ArtifactDecision) (s : Control)
    → IsClaimed now a s
    → let s' = (claim_release_stage_attempt (stage_command_id s.wf a.desired_digest) now s).1 in
      release_delivery_state s'.wf a.desired_digest ≡ "AwaitingStageAck"
unfolding claim_release_stage_attempt release_delivery_state no_release device_release_ready
    device_release_staged device_release_active stage_command_id
claimed-awaits now a s i =
    ground (
      arith,
      i.claimed,
      i.lacking,
      i.declared,
      text_eq_refl (stage_command_id s.wf a.desired_digest),
    )
