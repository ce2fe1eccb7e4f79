-- ===== src/Control/Once.antt =====
-- Commands that are published once (applyThresholdUpdate, applyDeadlineRejectionSignal,
-- applyBatterySimulationUpdate and applyPauseCommand of
-- edge/operator/internal/controller/wasmfunction_controller.go).
use sertay_thesis.Prelude.{
  ◌≡◌, ◌≢◌, inl, inr, Option-cases, Bool, true, false, some, [], ◌∷◌, ◌++◌, arith,
}
use sertay_thesis.Prelude.Text.{String, text_eq_refl, text_eq_iff}
use sertay_thesis.Api.{WasmFunction}
use sertay_thesis.Placement.{PlacementDecision}
use sertay_thesis.Artifact.Http.{ok}
use sertay_thesis.Control.Exec.{signal_deadline_rejection, Control, Env, publish_control}
use sertay_thesis.Control.Policy.{
  apply_threshold_update, send_thresholds, apply_deadline_rejection_signal, deadline_decision_id,
  reason_is, is_deadline_rejection, signal_once, send_signal, apply_battery_simulation_update,
  update_simulation, send_simulation, simulation_waits, simulation_command_id,
  effective_simulation_step, after?,
}
use sertay_thesis.Control.Pause.{
  apply_pause_command, pause_command_id, command_awaiting_new_telemetry, send_and_record,
}

-- Once the thresholds were published, the same decision publishes nothing more and changes nothing.
pub thresholds_once :
    (env later : Env) (topic : String) (d : PlacementDecision) (s : Control)
    → (apply_threshold_update env topic d s).0 ≡ ok true
    → let s' = (apply_threshold_update env topic d s).1 in
      apply_threshold_update later topic d s' ≡ (ok false, s')
unfolding apply_threshold_update send_thresholds publish_control
thresholds_once env later topic d s h = ground (arith)

-- A transition whose candidate misses its deadline, to a destination that is ready.
pub record IsRejected (wf : WasmFunction) (d : PlacementDecision) : Type 0 where
  pub moving : d.transition ≡ true
  pub unsafe : reason_is d.deadline.condition "CandidateDeadlineUnsafe" ≡ true
  pub destination : wf.status.artifact_readiness_reason ≡ "DestinationReady"

-- A rejected transition that was not signalled yet is signalled by one message with its identifier
-- and the function, where the publication succeeds, and the identifier is recorded. After that, the
-- same decision at the same telemetry publishes nothing more and changes nothing.
pub rejection_signaled_once :
    (env later : Env) (topic : String) (d : PlacementDecision) (s : Control)
    → IsRejected s.wf d
    → s.wf.status.last_signaled_deadline_decision_id ≢ deadline_decision_id s.wf d
    → (apply_deadline_rejection_signal env topic d s).0 ≡ ok tt
    → let s' = (apply_deadline_rejection_signal env topic d s).1 in
      let id = deadline_decision_id s.wf d in
      (s'.sent
        ≡ s.sent ++ (topic, signal_deadline_rejection id s.wf.spec.release.function_identity) ∷ [])
      × (s'.wf.status.last_signaled_deadline_decision_id ≡ id)
      × (apply_deadline_rejection_signal later topic d s' ≡ (ok tt, s'))
unfolding apply_deadline_rejection_signal signal_once send_signal publish_control
    is_deadline_rejection deadline_decision_id
rejection_signaled_once env later topic d s r new h =
    let id = deadline_decision_id s.wf d in
    let fresh = text_eq_iff s.wf.status.last_signaled_deadline_decision_id id in
    let ready = text_eq_iff s.wf.status.artifact_readiness_reason "DestinationReady" in
    let moving = r.moving in
    let unsafe = r.unsafe in
    let destination = r.destination in
    (
      ground (arith, fresh, ready, moving, unsafe, destination),
      ground (arith, fresh, ready, moving, unsafe, destination),
      ground (arith, fresh, ready, moving, unsafe, destination, text_eq_refl id),
    )

update_simulation-spec :
    (env : Env) (topic : String) (enabled : Bool) (s : Control)
    → (update_simulation env topic enabled s).1.wf.spec ≡ s.wf.spec
unfolding update_simulation send_simulation publish_control
update_simulation-spec env topic enabled s = ground arith

update_simulation_once :
    (env later : Env) (topic : String) (enabled : Bool) (s : Control)
    → (update_simulation env topic enabled s).0 ≡ ok true
    → after? s.wf.status.last_telemetry_time (some env.now) ≡ false
    → let s' = (update_simulation env topic enabled s).1 in
      update_simulation later topic enabled s' ≡ (ok false, s')
unfolding update_simulation send_simulation simulation_waits publish_control
update_simulation_once env later topic enabled s h old =
    let spec = s.wf.spec.device.battery_simulation in
    ground (
      arith,
      text_eq_refl (
          simulation_command_id enabled (effective_simulation_step spec.local_drain_percent)
            (effective_simulation_step spec.edge_recover_percent)),
    )

-- Once a battery simulation was published, it is not published again before telemetry that is newer
-- than the publication.
pub simulation_once :
    (env later : Env) (topic : String) (s : Control)
    → (apply_battery_simulation_update env topic s).0 ≡ ok true
    → after? s.wf.status.last_telemetry_time (some env.now) ≡ false
    → let s' = (apply_battery_simulation_update env topic s).1 in
      apply_battery_simulation_update later topic s' ≡ (ok false, s')
unfolding apply_battery_simulation_update
simulation_once env later topic s h old =
    elim (Option-cases s.wf.spec.device.battery_simulation.enabled) [
      | inl p ↦ ground arith
      | inr (enabled, p) ↦ ground (
        arith,
        update_simulation-spec env topic enabled s,
        update_simulation_once env later topic enabled s,
      )
    ]

-- Once a function was asked to pause, it is not asked again before telemetry that is newer than the
-- request.
pub pause_once :
    (env later : Env) (topic : String) (s : Control)
    → (apply_pause_command env topic s).0 ≡ ok tt
    → after? s.wf.status.last_telemetry_time (some env.now) ≡ false
    → let s' = (apply_pause_command env topic s).1 in
      apply_pause_command later topic s' ≡ (ok tt, s')
unfolding apply_pause_command send_and_record publish_control command_awaiting_new_telemetry
    pause_command_id
pause_once env later topic s h old = ground (arith, text_eq_refl (pause_command_id s.wf))
