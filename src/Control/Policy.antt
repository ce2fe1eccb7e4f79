-- ===== src/Control/Policy.antt =====
-- applyBatterySimulationUpdate, applyThresholdUpdate and applyDeadlineRejectionSignal
-- (edge/operator/internal/controller/wasmfunction_controller.go).
use sertay_thesis.Prelude.{
  ◌*◌, Bool, true, false, not, ◌&&◌, Option, none, some, is_some, if◌then◌else◌,
}
use sertay_thesis.Prelude.Int.{ℤ, pos, eq_ℤ}
use sertay_thesis.Prelude.Text.{
  String, ◌++◌, text_eq, trim_space, to_lower, format_int, format_bool,
}
use sertay_thesis.Prelude.Time.{Time, second, after, sub}
use sertay_thesis.Api.{WasmFunction}
use sertay_thesis.Api.Status.{Condition}
use sertay_thesis.Placement.{PlacementDecision}
use sertay_thesis.Artifact.Http.{ok}
use sertay_thesis.Control.Exec.{
  set_simulation, set_thresholds, signal_deadline_rejection, Env, Exec, ◌>>◌, pure, set_status,
  publish_control,
}

abbrev pub effective_simulation_step : Option ℤ → ℤ
effective_simulation_step none = pos 10
effective_simulation_step (some value) = value

unfoldable pub battery_simulation_source_acknowledged : WasmFunction → Bool → Bool
battery_simulation_source_acknowledged wf enabled =
    let source = to_lower (trim_space wf.status.observed_battery_source) in
    if enabled then text_eq source "simulated" else text_eq source "real"

unfoldable pub simulation_command_id : Bool → ℤ → ℤ → String
simulation_command_id enabled drain recover =
    "battery-simulation-"
    ++ format_bool enabled
    ++ "-"
    ++ format_int drain
    ++ "-"
    ++ format_int recover

-- t.After(u) for two pointers; false where one is nil.
abbrev pub after? : Option Time → Option Time → Bool
after? none u = false
after? (some t) none = false
after? (some t) (some u) = after t u

-- The command was sent before, and no telemetry has come since.
unfoldable pub simulation_waits : WasmFunction → String → Bool
simulation_waits wf command_id =
    text_eq wf.status.last_applied_battery_simulation_command_id command_id
    && is_some wf.status.last_battery_simulation_command_time
    && not (after? wf.status.last_telemetry_time wf.status.last_battery_simulation_command_time)

unfoldable pub send_simulation : Env → String → String → Bool → ℤ → ℤ → Exec Bool
send_simulation env topic command_id enabled drain recover = do
  publish_control env topic (set_simulation command_id enabled drain recover)
  set_status λ st. record st {
    last_applied_battery_simulation_command_id = command_id;
    last_battery_simulation_command_time = some env.now;
  }
  pure true

unfoldable pub update_simulation : Env → String → Bool → Exec Bool
update_simulation env topic enabled s =
    let wf = s.wf in
    let drain = effective_simulation_step wf.spec.device.battery_simulation.local_drain_percent in
    let recover =
      effective_simulation_step wf.spec.device.battery_simulation.edge_recover_percent in
    let command_id = simulation_command_id enabled drain recover in
    let same_configuration =
      text_eq wf.status.last_applied_battery_simulation_command_id command_id in
    if same_configuration && battery_simulation_source_acknowledged wf enabled
    then (ok false, s)
    else if simulation_waits wf command_id
    then (ok false, s)
    else send_simulation env topic command_id enabled drain recover s

unfoldable pub apply_battery_simulation_update : Env → String → Exec Bool
apply_battery_simulation_update env topic s = elim s.wf.spec.device.battery_simulation.enabled [
  | none ↦ (ok false, s)
  | some enabled ↦ update_simulation env topic enabled s
]

unfoldable pub thresholds_command_id : ℤ → ℤ → String
thresholds_command_id low high = "thresholds-" ++ format_int low ++ "-" ++ format_int high

unfoldable pub send_thresholds : Env → String → ℤ → ℤ → Exec Bool
send_thresholds env topic low high = do
  publish_control env topic (set_thresholds (thresholds_command_id low high) low high)
  set_status λ st. record st {
    last_applied_low_battery_threshold = low;
    last_applied_high_battery_threshold = high;
  }
  pure true

unfoldable pub apply_threshold_update : Env → String → PlacementDecision → Exec Bool
apply_threshold_update env topic d s =
    if not d.battery_threshold_enabled
    then (ok false, s)
    else if eq_ℤ s.wf.status.last_applied_low_battery_threshold d.low_threshold
        && eq_ℤ s.wf.status.last_applied_high_battery_threshold d.high_threshold
    then (ok false, s)
    else send_thresholds env topic d.low_threshold d.high_threshold s

-- The Unix epoch, in nanoseconds of the zero time.
abbrev pub unix_epoch : Time
unix_epoch = 62135596800 * second

-- t.UnixNano(), 0 at nil
abbrev pub unix_nano? : Option Time → ℤ
unix_nano? none = pos 0
unix_nano? (some t) = sub t unix_epoch

unfoldable pub deadline_decision_id : WasmFunction → PlacementDecision → String
deadline_decision_id wf d =
    "deadline-"
    ++ format_int wf.spec.release.generation
    ++ "-"
    ++ format_int wf.generation
    ++ "-"
    ++ d.current
    ++ "-"
    ++ d.candidate
    ++ "-"
    ++ format_int (unix_nano? wf.status.last_telemetry_time)

abbrev pub reason_is : Option Condition → String → Bool
reason_is none reason = false
reason_is (some condition) reason = text_eq condition.reason reason

-- A transition that was rejected for its deadline, to a destination that is ready.
unfoldable pub is_deadline_rejection : WasmFunction → PlacementDecision → Bool
is_deadline_rejection wf d =
    d.transition
    && reason_is d.deadline.condition "CandidateDeadlineUnsafe"
    && text_eq wf.status.artifact_readiness_reason "DestinationReady"

unfoldable pub send_signal : Env → String → String → String → Exec (Unit {0})
send_signal env topic decision_id function_identity = do
  publish_control env topic (signal_deadline_rejection decision_id function_identity)
  set_status λ st. record st { last_signaled_deadline_decision_id = decision_id }

unfoldable pub signal_once : Env → String → String → Exec (Unit {0})
signal_once env topic decision_id s =
    if text_eq s.wf.status.last_signaled_deadline_decision_id decision_id
    then (ok tt, s)
    else send_signal env topic decision_id s.wf.spec.release.function_identity s

unfoldable pub apply_deadline_rejection_signal : Env → String → PlacementDecision → Exec (Unit {0})
apply_deadline_rejection_signal env topic d s =
    let decision_id = deadline_decision_id s.wf d in
    if is_deadline_rejection s.wf d
    then (set_status (λ st. record st { last_deadline_decision_id = decision_id })
          >> signal_once env topic decision_id)
        s
    else (ok tt, s)
