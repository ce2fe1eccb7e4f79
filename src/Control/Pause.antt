-- ===== src/Control/Pause.antt =====
-- applyPauseCommand and applyResumeCommand
-- (edge/operator/internal/controller/wasmfunction_controller.go).
use sertay_thesis.Prelude.{Bool, true, not, ◌&&◌, Option, none, some, if◌then◌else◌}
use sertay_thesis.Prelude.Int.{eq_ℤ}
use sertay_thesis.Prelude.Text.{String, ◌++◌, text_eq, format_int}
use sertay_thesis.Prelude.Time.{Time, after}
use sertay_thesis.Api.{WasmFunction}
use sertay_thesis.Placement.{PlacementDecision, runtime_mode_for_placement}
use sertay_thesis.Release.{normalize_artifact_digest}
use sertay_thesis.Artifact.Http.{ok}
use sertay_thesis.Artifact.Reconcile.{ArtifactDecision}
use sertay_thesis.Control.Exec.{
  Command, pause_function, resume_function, Env, Exec, ◌>>◌, set_status, publish_control,
}

-- No telemetry newer than the last command.
abbrev pub no_telemetry_since : Option Time → Option Time → Bool
no_telemetry_since none telemetry = true
no_telemetry_since (some command) none = true
no_telemetry_since (some command) (some telemetry) = not (after telemetry command)

unfoldable pub command_awaiting_new_telemetry : WasmFunction → String → Bool
command_awaiting_new_telemetry wf command_id =
    text_eq wf.status.last_command_id command_id
    && no_telemetry_since wf.status.last_command_time wf.status.last_telemetry_time

-- Publishes, and records the command and its time.
unfoldable pub send_and_record : Env → String → String → Command → Exec (Unit {0})
send_and_record env topic command_id command = do
  publish_control env topic command
  set_status λ st. record st { last_command_id = command_id; last_command_time = some env.now }

unfoldable pub pause_command_id : WasmFunction → String
pause_command_id wf = "pause-" ++ format_int wf.spec.release.generation

unfoldable pub resume_command_id : WasmFunction → String
resume_command_id wf = "resume-" ++ format_int wf.spec.release.generation

unfoldable pub apply_pause_command : Env → String → Exec (Unit {0})
apply_pause_command env topic s =
    let command_id = pause_command_id s.wf in
    if s.wf.status.observed_admission_paused
    then (ok tt, s)
    else if command_awaiting_new_telemetry s.wf command_id
    then (ok tt, s)
    else send_and_record env topic command_id
        (pause_function command_id s.wf.spec.release.generation) s

-- The device is paused, runs in the mode of the desired placement, and has acknowledged the release.
unfoldable pub may_resume : WasmFunction → PlacementDecision → ArtifactDecision → Bool
may_resume wf d artifact =
    wf.status.observed_admission_paused
    && text_eq wf.status.observed_mode (runtime_mode_for_placement d.desired)
    && eq_ℤ wf.status.acknowledged_release_generation wf.spec.release.generation
    && text_eq (normalize_artifact_digest wf.status.observed_artifact_digest)
        artifact.desired_digest

unfoldable pub apply_resume_command :
    Env → String → PlacementDecision → ArtifactDecision → Exec (Unit {0})
apply_resume_command env topic d artifact s =
    let command_id = resume_command_id s.wf in
    if not (may_resume s.wf d artifact)
    then (ok tt, s)
    else if command_awaiting_new_telemetry s.wf command_id
    then (ok tt, s)
    else send_and_record env topic command_id
        (resume_function command_id s.wf.spec.release.generation) s
