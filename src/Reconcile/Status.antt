-- ===== src/Reconcile/Status.antt =====
-- What a run writes to the status of the resource (availableStatusCondition,
-- placementStatusCondition and updateStatus of
-- edge/operator/internal/controller/wasmfunction_controller.go). SetStatusCondition and
-- RemoveStatusCondition are not part of the repository; they are arguments.
use sertay_thesis.Prelude.{Bool, not, ◌&&◌, Option, none, some, List, [], ◌∷◌, if◌then◌else◌}
use sertay_thesis.Prelude.Int.{ℤ}
use sertay_thesis.Prelude.Text.{String, ◌++◌, text_eq, trim_space}
use sertay_thesis.Api.{WasmFunction}
use sertay_thesis.Api.Status.{
  WasmFunctionStatus, Condition, ConditionStatus, condition_true, condition_false,
  condition_unknown,
}
use sertay_thesis.Placement.{PlacementDecision}
use sertay_thesis.Release.{release_delivery_state}

abbrev pub available_status_condition : Condition
available_status_condition = record {
  type = "Available";
  status = condition_true;
  reason = "Reconciled";
  message = "Deployment and Service are reconciled";
}

abbrev commanded_condition : ConditionStatus → String → String → Condition
commanded_condition status reason message = record {
  type = "PlacementCommanded";
  status = status;
  reason = reason;
  message = message;
}

-- The condition where the publication did not fail.
unfoldable pub placed_condition : PlacementDecision → Bool → Condition
placed_condition d commanded =
    if text_eq d.desired ""
    then commanded_condition condition_unknown "WaitingForTelemetry" d.reason
    else if d.transition && not (text_eq d.readiness_reason "DestinationReady")
    then commanded_condition condition_unknown "ArtifactSyncPending" d.reason
    else if d.transition && not d.deadline.accepted
    then commanded_condition condition_false "TransitionRejected"
        ("retained " ++ d.current ++ " placement: " ++ d.reason)
    else if commanded
    then commanded_condition condition_true "CommandSent"
        ("commanded " ++ d.desired ++ " placement: " ++ d.reason)
    else commanded_condition condition_true "AlreadyCommanded"
        (d.desired ++ " placement already commanded: " ++ d.reason)

unfoldable pub placement_status_condition : PlacementDecision → Bool → Option String → Condition
placement_status_condition d commanded error =
    if not d.enabled
    then commanded_condition condition_false "ControlTopicMissing" d.reason
    else elim error [
      | some message ↦ commanded_condition condition_false "PublishFailed" message
      | none ↦ placed_condition d commanded
    ]

-- reconcileStatusUpdate
pub record ReconcileStatusUpdate : Type 0 where
  pub available_replicas : ℤ
  pub endpoint : String
  pub decision : PlacementDecision
  pub available : Condition
  pub artifact : Condition
  pub placement : Condition

-- The two functions on conditions of k8s.io/apimachinery/pkg/api/meta.
pub record Meta : Type 0 where
  pub set_status_condition : List Condition → Condition → List Condition
  pub remove_status_condition : List Condition → String → List Condition

unfoldable pub updated_conditions : Meta → List Condition → ReconcileStatusUpdate → List Condition
updated_conditions meta conditions update =
    let available = meta.set_status_condition conditions update.available in
    let artifact = meta.set_status_condition available update.artifact in
    let placement = meta.set_status_condition artifact update.placement in
    let ready = meta.remove_status_condition placement "DeadlineReady" in
    let risk = meta.remove_status_condition ready "DeadlineRisk" in
    elim (update.decision.deadline.condition) [
      | some condition ↦ meta.set_status_condition risk condition
      | none ↦ meta.remove_status_condition risk "DeadlineAdmission"
    ]

-- The fields that are taken over from the resource of this run and from its decision.
unfoldable pub copied_status :
    WasmFunction → WasmFunctionStatus → ReconcileStatusUpdate → WasmFunctionStatus
copied_status current st update = record current.status {
  available_replicas = update.available_replicas;
  endpoint = update.endpoint;
  desired_artifact_digest = st.desired_artifact_digest;
  host_artifact_digest = st.host_artifact_digest;
  host_staged_artifact_digest = st.host_staged_artifact_digest;
  artifact_sync_started_at = st.artifact_sync_started_at;
  artifact_sync_retry_count = st.artifact_sync_retry_count;
  artifact_readiness_reason = st.artifact_readiness_reason;
  selected_function_identity = trim_space current.spec.release.function_identity;
  desired_release_generation = current.spec.release.generation;
  desired_placement = update.decision.desired;
  placement_reason = update.decision.reason;
  proposal_source = update.decision.proposal_source;
  proposed_placement = update.decision.candidate;
  predicted_candidate_cost_ms = update.decision.deadline.cost_ms;
  predicted_candidate_slack_ms = update.decision.deadline.slack_ms;
  last_applied_low_battery_threshold = st.last_applied_low_battery_threshold;
  last_applied_high_battery_threshold = st.last_applied_high_battery_threshold;
  last_commanded_placement = st.last_commanded_placement;
  last_commanded_runtime_mode = st.last_commanded_runtime_mode;
  last_command_id = st.last_command_id;
  last_command_time = st.last_command_time;
  last_stage_command_id = st.last_stage_command_id;
  last_stage_command_time = st.last_stage_command_time;
  stage_command_attempts = st.stage_command_attempts;
  last_deadline_decision_id = st.last_deadline_decision_id;
  last_signaled_deadline_decision_id = st.last_signaled_deadline_decision_id;
  last_applied_battery_simulation_command_id = st.last_applied_battery_simulation_command_id;
  last_battery_simulation_command_time = st.last_battery_simulation_command_time;
  observed_battery_percent = update.decision.battery_percent;
}

-- The resource that a run of updateStatus writes over `current`.
unfoldable pub updated_resource :
    Meta → WasmFunction → WasmFunctionStatus → ReconcileStatusUpdate → WasmFunction
updated_resource meta current st update =
    let copied : WasmFunction = record current { status = copied_status current st update } in
    record current {
      status = record copied.status {
        release_delivery_state =
            release_delivery_state copied copied.status.desired_artifact_digest;
        conditions = updated_conditions meta current.status.conditions update;
      };
    }

-- What the API server answers to Get and Update of one run of the closure.
pub data StatusAttempt : Type 0 where
  read_failed : String → StatusAttempt
  stored stale : WasmFunction → StatusAttempt
  write_failed : WasmFunction → String → StatusAttempt

-- updateStatus, with the runs that RetryOnConflict allows: after a conflict (`stale`) the resource
-- is read again. The resource that the server stored, or the error.
unfoldable pub update_status :
    Meta
    → List StatusAttempt
    → WasmFunctionStatus
    → ReconcileStatusUpdate
    → Option WasmFunction × Option String
update_status meta [] st update = (none, some "conflict")
update_status meta (read_failed e ∷ attempts) st update = (none, some e)
update_status meta (stored current ∷ attempts) st update =
    (some (updated_resource meta current st update), none)
update_status meta (stale current ∷ attempts) st update = update_status meta attempts st update
update_status meta (write_failed current e ∷ attempts) st update = (none, some e)
