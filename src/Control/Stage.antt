-- ===== src/Control/Stage.antt =====
-- applyReleaseStage and claimReleaseStageAttempt
-- (edge/operator/internal/controller/wasmfunction_controller.go).
use sertay_thesis.Prelude.{
  ◌+◌, Bool, true, false, not, ◌&&◌, ◌||◌, Option, none, some, if◌then◌else◌,
}
use sertay_thesis.Prelude.Int.{ℤ, pos, leb_ℤ, ltb_ℤ, add32}
use sertay_thesis.Prelude.Text.{String, ◌++◌, text_eq, format_int}
use sertay_thesis.Prelude.Time.{Time, is_zero, before, after}
use sertay_thesis.Prelude.Maps.{namespaced_name_eq, lookup, insert, delete}
use sertay_thesis.Api.{WasmFunction, key_of}
use sertay_thesis.Release.{device_release_ready, stage_command_id, release_stage_retry_delay}
use sertay_thesis.Artifact.Http.{ok, err, device_artifact_url}
use sertay_thesis.Artifact.Reconcile.{ArtifactDecision}
use sertay_thesis.Control.Exec.{
  stage_release, ReleaseStageSendState, Control, Env, Exec, ◌>>=◌, ◌>>◌, pure, publish_control,
}

-- When a command was sent last, with its attempts; the zero time stands for never.
pub record LastSend : Type 0 where
  pub sent_at : Time
  pub attempts : ℤ

-- The last send that the status knows of.
unfoldable pub send_in_status : WasmFunction → String → LastSend
send_in_status wf command_id =
    let matching = text_eq wf.status.last_stage_command_id command_id in
    elim wf.status.last_stage_command_time [
      | none ↦ record { sent_at = 0; attempts = pos 0 }
      | some t ↦
          if matching
          then record { sent_at = t; attempts = wf.status.stage_command_attempts }
          else record { sent_at = 0; attempts = pos 0 }
    ]

-- A later send that the operator remembers counts.
unfoldable pub later_send : Option ReleaseStageSendState → String → LastSend → LastSend
later_send none command_id last = last
later_send (some remembered) command_id last =
    if text_eq remembered.command_id command_id && after remembered.sent_at last.sent_at
    then record { sent_at = remembered.sent_at; attempts = remembered.attempts }
    else last

unfoldable pub last_stage_send : Control → String → LastSend
last_stage_send s command_id =
    later_send (lookup (key_of s.wf) s.stage_sends) command_id (send_in_status s.wf command_id)

abbrev pub at_least_one : ℤ → ℤ
at_least_one n = if ltb_ℤ n (pos 1) then pos 1 else n

-- The number of the attempt that is claimed.
unfoldable pub next_attempt : LastSend → ℤ
next_attempt last =
    let next = add32 (at_least_one last.attempts) (pos 1) in
    if is_zero last.sent_at then pos 1 else if ltb_ℤ next (pos 2) then pos 2 else next

-- Whether the delay since the last send has not passed.
unfoldable pub too_early : LastSend → Time → Bool
too_early last now =
    not (is_zero last.sent_at)
    && before now (last.sent_at + release_stage_retry_delay (at_least_one last.attempts))

-- The result is the attempt, or `none` where it is not claimed.
unfoldable pub claim_release_stage_attempt : String → Time → Exec (Option ℤ)
claim_release_stage_attempt command_id now s =
    let last = last_stage_send s command_id in
    let attempt = next_attempt last in
    if too_early last now then (ok none, s) else (
      ok (some attempt),
      record s {
        wf = record s.wf {
          status = record s.wf.status {
            last_stage_command_id = command_id;
            last_stage_command_time = some now;
            stage_command_attempts = attempt;
          };
        };
        stage_sends =
            insert (key_of s.wf)
              (record { command_id = command_id; sent_at = now; attempts = attempt }) s.stage_sends;
      },
    )

-- The device is ready: the attempts are forgotten.
unfoldable pub forget_stage_sends : Exec Bool
forget_stage_sends s = (
  ok false,
  record s {
    wf = record s.wf { status = record s.wf.status { stage_command_attempts = pos 0 } };
    stage_sends = delete (key_of s.wf) s.stage_sends;
  },
)

unfoldable pub send_stage : Env → WasmFunction → String → ArtifactDecision → Option ℤ → Exec Bool
send_stage env wf topic artifact none = pure false
send_stage env wf topic artifact (some attempt) = do
  publish_control env topic (
      stage_release (stage_command_id wf artifact.desired_digest) wf.spec.release.generation
        (device_artifact_url wf) artifact.desired_digest wf.spec.release.function_identity
        wf.spec.release.resource_contract)
  pure true

unfoldable pub apply_release_stage : Env → String → ArtifactDecision → Exec Bool
apply_release_stage env topic artifact s =
    let wf = s.wf in
    if not artifact.enabled
      || text_eq artifact.desired_digest ""
      || leb_ℤ wf.spec.release.generation (pos 0)
    then (ok false, s)
    else if text_eq (device_artifact_url wf) ""
    then (
      err (
          "device.artifactURL is required to stage release "
          ++ format_int wf.spec.release.generation),
      s,
    )
    else if device_release_ready wf artifact.desired_digest
    then forget_stage_sends s
    else (claim_release_stage_attempt (stage_command_id wf artifact.desired_digest) env.now
          >>= send_stage env wf topic artifact)
        s
