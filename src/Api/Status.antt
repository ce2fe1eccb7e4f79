-- ===== src/Api/Status.antt =====
-- The observed part of a WasmFunction (edge/operator/api/v1alpha1/wasmfunction_types.go), and the
-- Kubernetes condition without its transition time, which no code of the operator reads.
use sertay_thesis.Prelude.{Bool, List, Option, [], none, false}
use sertay_thesis.Prelude.Int.{ℤ, pos}
use sertay_thesis.Prelude.Text.{String}
use sertay_thesis.Prelude.Time.{Time}

pub data ConditionStatus : Type 0 where
  condition_true condition_false condition_unknown : ConditionStatus

pub record Condition : Type 0 where
  pub type : String
  pub status : ConditionStatus
  pub reason : String
  pub message : String

pub record WasmFunctionStatus : Type 0 where
  pub available_replicas : ℤ  -- int32
  pub endpoint : String
  pub desired_artifact_digest : String
  pub host_artifact_digest : String
  pub host_staged_artifact_digest : String
  pub device_staged_artifact_digest : String
  pub selected_function_identity : String
  pub desired_release_generation : ℤ  -- int64
  pub acknowledged_release_generation : ℤ  -- int64
  pub staged_release_generation : ℤ  -- int64
  pub desired_placement : String
  pub placement_reason : String
  pub proposal_source : String
  pub proposed_placement : String
  pub predicted_candidate_cost_ms : Option ℤ  -- *int32
  pub predicted_candidate_slack_ms : Option ℤ  -- *int32
  pub artifact_readiness_reason : String
  pub artifact_sync_started_at : Option Time
  pub artifact_sync_retry_count : ℤ  -- int32
  pub observed_battery_percent : Option ℤ  -- *int32
  pub observed_mode : String
  pub observed_admission_paused : Bool
  pub observed_battery_source : String
  pub observed_voltage_millivolts : Option ℤ  -- *int32
  pub observed_artifact_digest : String
  pub observed_function : String
  pub observed_battery_delta_percent : Option ℤ  -- *int32
  pub observed_battery_delta_window_seconds : Option ℤ  -- *int32
  pub consecutive_risky_windows : ℤ  -- int32
  pub last_telemetry_time : Option Time
  pub last_commanded_placement : String
  pub last_commanded_runtime_mode : String
  pub last_command_time : Option Time
  pub last_command_id : String
  pub last_stage_command_id : String
  pub last_stage_command_time : Option Time
  pub stage_command_attempts : ℤ  -- int32
  pub release_delivery_state : String
  pub last_deadline_decision_id : String
  pub last_signaled_deadline_decision_id : String
  pub last_applied_battery_simulation_command_id : String
  pub last_battery_simulation_command_time : Option Time
  pub last_applied_low_battery_threshold : ℤ  -- int32
  pub last_applied_high_battery_threshold : ℤ  -- int32
  pub conditions : List Condition

-- The status of a resource that no controller has written yet.
abbrev pub empty_status : WasmFunctionStatus
empty_status = record {
  available_replicas = pos 0;
  endpoint = "";
  desired_artifact_digest = "";
  host_artifact_digest = "";
  host_staged_artifact_digest = "";
  device_staged_artifact_digest = "";
  selected_function_identity = "";
  desired_release_generation = pos 0;
  acknowledged_release_generation = pos 0;
  staged_release_generation = pos 0;
  desired_placement = "";
  placement_reason = "";
  proposal_source = "";
  proposed_placement = "";
  predicted_candidate_cost_ms = none;
  predicted_candidate_slack_ms = none;
  artifact_readiness_reason = "";
  artifact_sync_started_at = none;
  artifact_sync_retry_count = pos 0;
  observed_battery_percent = none;
  observed_mode = "";
  observed_admission_paused = false;
  observed_battery_source = "";
  observed_voltage_millivolts = none;
  observed_artifact_digest = "";
  observed_function = "";
  observed_battery_delta_percent = none;
  observed_battery_delta_window_seconds = none;
  consecutive_risky_windows = pos 0;
  last_telemetry_time = none;
  last_commanded_placement = "";
  last_commanded_runtime_mode = "";
  last_command_time = none;
  last_command_id = "";
  last_stage_command_id = "";
  last_stage_command_time = none;
  stage_command_attempts = pos 0;
  release_delivery_state = "";
  last_deadline_decision_id = "";
  last_signaled_deadline_decision_id = "";
  last_applied_battery_simulation_command_id = "";
  last_battery_simulation_command_time = none;
  last_applied_low_battery_threshold = pos 0;
  last_applied_high_battery_threshold = pos 0;
  conditions = [];
}
