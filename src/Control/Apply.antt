-- ===== src/Control/Apply.antt =====
-- applyPlacement: the commands of one run, in their order
-- (edge/operator/internal/controller/wasmfunction_controller.go).
use sertay_thesis.Prelude.{Bool, true, false, not, ◌&&◌, some, if◌then◌else◌}
use sertay_thesis.Prelude.Text.{String, text_eq}
use sertay_thesis.Placement.{PlacementDecision}
use sertay_thesis.Artifact.Http.{ok}
use sertay_thesis.Artifact.Reconcile.{ArtifactDecision}
use sertay_thesis.Control.Exec.{Env, Exec, ◌>>=◌, ◌>>◌, pure, set_status}
use sertay_thesis.Control.Stage.{apply_release_stage}
use sertay_thesis.Control.Policy.{
  apply_battery_simulation_update, apply_threshold_update, apply_deadline_rejection_signal,
}
use sertay_thesis.Control.Pause.{apply_pause_command, apply_resume_command}
use sertay_thesis.Control.Activate.{apply_placement_command}

-- A hard transition that was not accepted pauses the function.
unfoldable pub pause_if_forced : Env → String → PlacementDecision → Exec (Unit {0})
pause_if_forced env topic d =
    if d.hard && d.transition && not d.deadline.accepted
    then apply_pause_command env topic
    else pure tt

unfoldable pub note_command_time : Env → Bool → Exec (Unit {0})
note_command_time env true = set_status λ st. record st { last_command_time = some env.now }
note_command_time env false = pure tt

unfoldable pub apply_commands : Env → String → PlacementDecision → ArtifactDecision → Exec Bool
apply_commands env topic d artifact = do
  _ ← apply_release_stage env topic artifact
  _ ← apply_battery_simulation_update env topic
  _ ← apply_threshold_update env topic d
  apply_deadline_rejection_signal env topic d
  pause_if_forced env topic d
  commanded ← apply_placement_command env topic d artifact
  note_command_time env commanded
  apply_resume_command env topic d artifact
  pure commanded

unfoldable pub apply_placement : Env → PlacementDecision → ArtifactDecision → Exec Bool
apply_placement env d artifact s =
    let topic = s.wf.spec.device.control_topic in
    if text_eq topic "" then (ok false, s) else apply_commands env topic d artifact s
