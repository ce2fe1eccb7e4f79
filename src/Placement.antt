-- ===== src/Placement.antt =====
-- Placement resolution (edge/operator/internal/controller/wasmfunction_controller.go): the proposal,
-- resource locality, deadline admission, and the readiness of the destination.
pub mod Resolve
pub mod Domain
pub mod Battery
pub mod Hysteresis
use sertay_thesis.Prelude.{
  Bool, true, false, not, ◌||◌, ◌&&◌, Option, none, some, any, if◌then◌else◌, is_some,
}
use sertay_thesis.Prelude.Int.{ℤ, pos, leb_ℤ, ltb_ℤ, eq_ℤ}
use sertay_thesis.Prelude.Text.{
  String, ◌++◌, text_eq, trim_space, to_lower, equal_fold, quote, format_int,
}
use sertay_thesis.Api.{WasmFunction}
use sertay_thesis.Api.Spec.{ResourceContractSpec}
use sertay_thesis.Api.Status.{Condition}
use sertay_thesis.Policy.{
  default_low_battery_threshold, default_high_battery_threshold,
  effective_battery_threshold_enabled, effective_battery_delta_enabled,
  effective_battery_delta_window_seconds, effective_battery_delta_max_drain_percent,
  effective_battery_delta_risky_windows,
}
use sertay_thesis.Deadline.{
  DeadlineEstimateSnapshot, DeadlineEvaluation, placement_local, placement_edge, placement_hybrid,
  evaluate_deadline_admission,
}
unfoldable pub use sertay_thesis.Locality.{
  has_device_local_resources, apply_resource_locality, runtime_mode_for_placement,
  normalize_retained_placement, current_placement, battery_percent_for_placement, at_some,
  local_battery_delta_forces_edge, low_threshold_of, configured_high_threshold_of,
  high_threshold_of,
}

abbrev pub placement_auto : String
placement_auto = "auto"

pub record PlacementDecision : Type 0 where
  pub enabled : Bool
  pub current : String
  pub proposal : String
  pub candidate : String
  pub desired : String
  pub runtime_mode : String
  pub reason : String
  pub readiness_reason : String
  pub proposal_source : String
  pub hard : Bool
  pub transition : Bool
  pub battery_percent : Option ℤ
  pub low_threshold : ℤ
  pub high_threshold : ℤ
  pub battery_threshold_enabled : Bool
  pub deadline : DeadlineEvaluation

-- The zero value of deadlineEvaluation.
abbrev pub no_evaluation : DeadlineEvaluation
no_evaluation = record {
  enabled = false;
  accepted = false;
  blocks_transition = false;
  unsafe = false;
  forced = false;
  candidate = "";
  cost_ms = none;
  slack_ms = none;
  condition = none;
}

-- What the guardrail or the switch on the mode proposes; an empty proposal keeps the placement.
pub record Proposed : Type 0 where
  pub proposal : String
  pub source : String
  pub hard : Bool
  pub reason : String

abbrev pub propose : String → String → String → Proposed
propose proposal source reason = record {
  proposal = proposal;
  source = source;
  hard = false;
  reason = reason;
}

-- The case `auto` of the switch.
unfoldable pub propose_auto : WasmFunction → String → Option ℤ → ℤ → Proposed
propose_auto wf current none high = propose "" "" "auto placement waiting for battery telemetry"
propose_auto wf current (some battery) high =
    if effective_battery_threshold_enabled wf
      && not (text_eq current placement_local)
      && leb_ℤ high battery
    then propose placement_local "HighBatteryThreshold"
        ("battery " ++ format_int battery ++ "% >= high threshold " ++ format_int high ++ "%")
    else if local_battery_delta_forces_edge wf high
    then propose placement_edge "BatteryDrain" (
        "local battery drain "
        ++ elim wf.status.observed_battery_delta_percent [
          | none ↦ ""
          | some delta ↦ format_int delta
        ]
        ++ "% confirmed for "
        ++ format_int wf.status.consecutive_risky_windows
        ++ " windows over "
        ++ format_int (effective_battery_delta_window_seconds wf)
        ++ "s")
    else propose "" "" ("retaining accepted " ++ current ++ " placement")

-- strings.ToLower of the mode, `auto` if that is empty.
unfoldable pub placement_mode : WasmFunction → String
placement_mode wf =
    let mode = to_lower wf.spec.placement.mode in if text_eq mode "" then placement_auto else mode

unfoldable pub propose_for_mode : WasmFunction → String → Option ℤ → ℤ → Proposed
propose_for_mode wf current battery high =
    let mode = placement_mode wf in
    if text_eq mode placement_edge
    then propose placement_edge "ExplicitPlacement" "operator requested edge placement"
    else if text_eq mode placement_local
    then propose placement_local "ExplicitPlacement" "operator requested local placement"
    else if text_eq mode placement_auto
    then propose_auto wf current battery high
    else propose "" "" ("unsupported placement mode " ++ quote wf.spec.placement.mode)

-- The low-battery guardrail stands before the mode.
unfoldable pub guardrail_holds : WasmFunction → String → Option ℤ → ℤ → Bool
guardrail_holds wf current battery low =
    effective_battery_threshold_enabled wf
    && text_eq current placement_local
    && at_some battery (λ b. leb_ℤ b low)

unfoldable pub make_proposal : WasmFunction → String → Option ℤ → ℤ → ℤ → Proposed
make_proposal wf current battery low high =
    if guardrail_holds wf current battery low
    then record {
      proposal = placement_edge;
      source = "LowBatteryThreshold";
      hard = true;
      reason =
          "battery "
          ++ elim battery [ none ↦ "" | some b ↦ format_int b ]
          ++ "% <= low threshold "
          ++ format_int low
          ++ "%";
    }
    else propose_for_mode wf current battery high

-- The decision before anything is proposed.
unfoldable pub initial_decision : WasmFunction → PlacementDecision
initial_decision wf =
    let current = current_placement wf in
    record {
      enabled = not (text_eq wf.spec.device.control_topic "");
      current = current;
      proposal = "";
      candidate = "";
      desired = current;
      runtime_mode = runtime_mode_for_placement current;
      reason = "";
      readiness_reason = "";
      proposal_source = "";
      hard = false;
      transition = false;
      battery_percent = battery_percent_for_placement wf;
      low_threshold = low_threshold_of wf;
      high_threshold = high_threshold_of wf;
      battery_threshold_enabled = effective_battery_threshold_enabled wf;
      deadline = no_evaluation;
    }

-- The message of the condition, if the evaluation has one.
abbrev pub message_or : Option Condition → String → String
message_or none reason = reason
message_or (some condition) reason = condition.message

-- What follows the switch: locality, admission, and the choice of the desired placement.
unfoldable pub admit :
    WasmFunction → DeadlineEstimateSnapshot → PlacementDecision → PlacementDecision
admit wf estimates d =
    let candidate = apply_resource_locality wf d.proposal in
    let transition = not (text_eq candidate d.current) in
    let deadline = evaluate_deadline_admission wf candidate d.hard estimates in
    let judged = record d { candidate = candidate; transition = transition; deadline = deadline } in
    if text_eq d.proposal ""
    then record d {
      candidate = d.current;
      deadline = evaluate_deadline_admission wf d.current false estimates;
    }
    else if not transition || deadline.accepted
    then record judged { desired = candidate; runtime_mode = runtime_mode_for_placement candidate }
    else record judged {
      desired = d.current;
      runtime_mode = runtime_mode_for_placement d.current;
      reason = message_or deadline.condition d.reason;
    }

-- The decision after the switch on the mode.
unfoldable pub proposed_decision : WasmFunction → PlacementDecision
proposed_decision wf =
    let start = initial_decision wf in
    let p =
      make_proposal wf (current_placement wf) (battery_percent_for_placement wf)
        (low_threshold_of wf) (high_threshold_of wf) in
    record start {
      proposal = p.proposal;
      proposal_source = p.source;
      hard = p.hard;
      reason = p.reason;
    }

unfoldable pub resolve_placement_with_estimates :
    WasmFunction → DeadlineEstimateSnapshot → PlacementDecision
resolve_placement_with_estimates wf estimates =
    let start = initial_decision wf in
    if not start.enabled
    then record start { reason = "device control topic not configured" }
    else admit wf estimates (proposed_decision wf)
