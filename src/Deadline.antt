-- ===== src/Deadline.antt =====
-- Deadline admission of a candidate placement
-- (edge/operator/internal/controller/deadline_placement.go, and the snapshot type of
-- deadline_estimator.go). The cost and the slack are int32 and wrap around.
pub mod Cost
pub mod Admission
pub mod Overflow
use sertay_thesis.Prelude.{Bool, true, false, not, ◌||◌, ◌&&◌, Option, none, some, if◌then◌else◌}
use sertay_thesis.Prelude.Int.{ℤ, pos, leb_ℤ, add32, sub32}
use sertay_thesis.Prelude.Text.{String, ◌++◌, text_eq, trim_space, quote, format_int}
use sertay_thesis.Api.{WasmFunction}
use sertay_thesis.Api.Status.{
  Condition, ConditionStatus, condition_true, condition_false, condition_unknown,
}
use sertay_thesis.Policy.{
  effective_deadline_enabled, effective_deadline_min_slack_ms, effective_deadline_safety_margin_ms,
}

pub record DeadlineEstimateSnapshot : Type 0 where
  pub identity_known : Bool
  pub available : Bool
  pub local_execution_ms : ℤ  -- int32, and so all below
  pub local_queue_delay_ms : ℤ
  pub resource_wake_ms : ℤ
  pub edge_execution_ms : ℤ
  pub network_round_trip_ms : ℤ
  pub resource_collection_ms : ℤ
  pub output_application_ms : ℤ
  pub hybrid_round_trip_ms : ℤ
  pub sample_count : ℤ

pub record DeadlineEvaluation : Type 0 where
  pub enabled : Bool
  pub accepted : Bool
  pub blocks_transition : Bool
  pub unsafe : Bool
  pub forced : Bool
  pub candidate : String
  pub cost_ms : Option ℤ
  pub slack_ms : Option ℤ
  pub condition : Option Condition

abbrev pub placement_local : String
placement_local = "local"

abbrev pub placement_edge : String
placement_edge = "edge"

abbrev pub placement_hybrid : String
placement_hybrid = "hybrid"

unfoldable pub deadline_admission_condition : ConditionStatus → String → String → Option Condition
deadline_admission_condition status reason message =
    some
      (record { type = "DeadlineAdmission"; status = status; reason = reason; message = message })

-- The default of the switch is `none`.
unfoldable pub deadline_candidate_cost : String → DeadlineEstimateSnapshot → ℤ → Option ℤ
deadline_candidate_cost candidate estimates safety_margin =
    if text_eq candidate placement_local
    then some (
        add32
          (add32 (add32 estimates.local_queue_delay_ms estimates.resource_wake_ms)
            estimates.local_execution_ms)
          safety_margin)
    else if text_eq candidate placement_edge
    then some
        (add32 (add32 estimates.network_round_trip_ms estimates.edge_execution_ms) safety_margin)
    else if text_eq candidate placement_hybrid
    then some (
        add32
          (add32
            (add32 (add32 estimates.resource_collection_ms estimates.network_round_trip_ms)
              estimates.edge_execution_ms)
            estimates.output_application_ms)
          safety_margin)
    else none

-- The value that evaluateDeadlineAdmission begins with.
unfoldable pub initial_evaluation : WasmFunction → String → DeadlineEvaluation
initial_evaluation wf candidate = record {
  enabled = effective_deadline_enabled wf;
  accepted = true;
  blocks_transition = false;
  unsafe = false;
  forced = false;
  candidate = candidate;
  cost_ms = none;
  slack_ms = none;
  condition = none;
}

-- The part of evaluateDeadlineAdmission behind the computed cost.
unfoldable pub judge_slack :
    WasmFunction → String → Bool → ℤ → ℤ → DeadlineEvaluation → DeadlineEvaluation
judge_slack wf candidate hard target cost start =
    let slack = sub32 target cost in
    let minimum = effective_deadline_min_slack_ms wf in
    let measured = record start { cost_ms = some cost; slack_ms = some slack } in
    let numbers =
      candidate
      ++ " candidate cost "
      ++ format_int cost
      ++ "ms leaves "
      ++ format_int slack
      ++ "ms slack" in
    if leb_ℤ minimum slack
    then record measured {
      condition =
          deadline_admission_condition condition_true "CandidateAccepted"
            (numbers ++ " (minimum " ++ format_int minimum ++ "ms)");
    }
    else if hard
    then record measured {
      unsafe = true;
      forced = true;
      condition = deadline_admission_condition condition_false "ForcedBatteryOverride" (
          numbers
          ++ " below minimum "
          ++ format_int minimum
          ++ "ms; low-battery guardrail overrides deadline risk");
    }
    else record measured {
      unsafe = true;
      accepted = false;
      blocks_transition = true;
      condition =
          deadline_admission_condition condition_false "CandidateDeadlineUnsafe"
            (numbers ++ " below minimum " ++ format_int minimum ++ "ms");
    }

-- The part behind the target and the estimates: the switch on the candidate.
unfoldable pub judge_candidate :
    WasmFunction
    → String
    → Bool
    → ℤ
    → DeadlineEstimateSnapshot
    → DeadlineEvaluation
    → DeadlineEvaluation
judge_candidate wf candidate hard target estimates start =
    elim (deadline_candidate_cost candidate estimates (effective_deadline_safety_margin_ms wf)) [
      | none ↦ record start {
        accepted = false;
        blocks_transition = true;
        condition =
            deadline_admission_condition condition_unknown "CandidateUnknown"
              ("cannot evaluate unsupported candidate placement " ++ quote candidate);
      }
      | some cost ↦ judge_slack wf candidate hard target cost start
    ]

unfoldable pub abstain : String → String → DeadlineEvaluation → DeadlineEvaluation
abstain reason message start = record start {
  condition = deadline_admission_condition condition_unknown reason message;
}

-- The part behind the identity checks: the target must be there and positive.
unfoldable pub judge_target :
    Option ℤ
    → WasmFunction
    → String
    → String
    → Bool
    → DeadlineEstimateSnapshot
    → DeadlineEvaluation
    → DeadlineEvaluation
judge_target none wf identity candidate hard estimates start =
    abstain "TargetUnavailable" "deadline targetMs is not configured; deadline admission abstained"
      start
judge_target (some target) wf identity candidate hard estimates start =
    if leb_ℤ target (pos 0)
    then abstain "TargetUnavailable"
        "deadline targetMs is not configured; deadline admission abstained" start
    else if not estimates.available
    then abstain "EstimatesUnavailable"
        ("timing estimates for function "
          ++ quote identity
          ++ " are unavailable; deadline admission abstained")
        start
    else judge_candidate wf candidate hard target estimates start

unfoldable pub evaluate_deadline_admission :
    WasmFunction → String → Bool → DeadlineEstimateSnapshot → DeadlineEvaluation
evaluate_deadline_admission wf candidate hard estimates =
    let start = initial_evaluation wf candidate in
    let identity = trim_space wf.spec.release.function_identity in
    let observed_identity = trim_space wf.status.observed_function in
    let refused = record start { accepted = hard; blocks_transition = not hard } in
    if not start.enabled
    then start
    else if text_eq identity "" || not estimates.identity_known
    then record refused {
      condition =
          deadline_admission_condition condition_unknown "FunctionIdentityUnknown"
            ("function identity " ++ quote identity ++ " has no configured timing profile");
    }
    else if not (text_eq observed_identity "") && not (text_eq observed_identity identity)
    then record refused {
      condition = deadline_admission_condition condition_unknown "FunctionIdentityMismatch" (
          "selected function "
          ++ quote identity
          ++ " does not match reported function "
          ++ quote observed_identity);
    }
    else judge_target wf.spec.placement.deadline.target_ms wf identity candidate hard estimates
        start
