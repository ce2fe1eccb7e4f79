-- ===== src/Reconcile/Requeue.antt =====
-- When a resource is reconciled again (updateArtifactRetryState, requeueOnError and
-- requeuePendingRelease of edge/operator/internal/controller/wasmfunction_controller.go). A result
-- is the delay of RequeueAfter, nothing where the function returns false.
use sertay_thesis.Prelude.{
  ◌+◌, ◌-◌, ◌*◌, ◌^◌, ◌||◌, Option, none, some, is_some, ltb, leb, ◌==◌, if◌then◌else◌,
}
use sertay_thesis.Prelude.Int.{ℤ, pos, pos_part, ltb_ℤ, add32}
use sertay_thesis.Prelude.Text.{String, text_eq}
use sertay_thesis.Prelude.Time.{Time, Duration, second}
use sertay_thesis.Api.{WasmFunction}
use sertay_thesis.Release.{
  normalize_artifact_digest, release_delivery_state, release_stage_retry_delay,
  release_stage_retry_base,
}
use sertay_thesis.Artifact.Reconcile.{SyncError}

abbrev pub started_or : Option Time → Time → Time
started_or none now = now
started_or (some t) now = t

-- The clock is read once.
unfoldable pub update_artifact_retry_state : Time → WasmFunction → Option SyncError → WasmFunction
update_artifact_retry_state now wf none = record wf {
  status = record wf.status { artifact_sync_started_at = none; artifact_sync_retry_count = pos 0 };
}
update_artifact_retry_state now wf (some e) =
    let started = started_or wf.status.artifact_sync_started_at now in
    record wf {
      status = record wf.status {
        artifact_sync_started_at = some started;
        artifact_sync_retry_count = add32 wf.status.artifact_sync_retry_count (pos 1);
        artifact_readiness_reason =
            if leb (60 * second) (now - started)
            then "SyncFailed"
            else wf.status.artifact_readiness_reason;
      };
    }

-- The delay after a number of retries.
unfoldable pub error_delay : ℤ → Duration
error_delay retry_count =
    let retries = if ltb_ℤ retry_count (pos 1) then pos 1 else retry_count in
    let exponent = pos_part retries - 1 in
    let delay = 5 * second * 2 ^ (if ltb exponent 3 then exponent else 3) in
    if ltb (60 * second) delay then 60 * second else delay

unfoldable pub requeue_on_error : WasmFunction → Option SyncError → Option String → Option Duration
requeue_on_error wf artifact_error placement_error =
    if is_some artifact_error || is_some placement_error
    then some (error_delay wf.status.artifact_sync_retry_count)
    else none

-- From now to a time, a second where that time has come.
abbrev pub delay_until : Time → Time → Duration
delay_until retry_at now = if retry_at - now == 0 then second else retry_at - now

-- The delay to the next send, a second where the last send has no time.
unfoldable pub pending_delay : Option Time → Duration → Time → Duration
pending_delay none wait now = second
pending_delay (some sent) wait now = delay_until (sent + wait) now

unfoldable pub requeue_pending_release : WasmFunction → Time → Option Duration
requeue_pending_release wf now =
    let state =
      release_delivery_state wf (normalize_artifact_digest wf.spec.release.artifact_digest) in
    let count = wf.status.stage_command_attempts in
    let attempts = if ltb_ℤ count (pos 1) then pos 1 else count in
    if text_eq state "AwaitingStageAck"
    then some
        (pending_delay wf.status.last_stage_command_time (release_stage_retry_delay attempts) now)
    else if text_eq state "AwaitingActivationAck"
    then some (pending_delay wf.status.last_command_time release_stage_retry_base now)
    else none
