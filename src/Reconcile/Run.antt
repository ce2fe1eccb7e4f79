-- ===== src/Reconcile/Run.antt =====
-- One run of the reconcile loop (Reconcile and deadlineEstimate of
-- edge/operator/internal/controller/wasmfunction_controller.go), composed of the parts that the
-- other modules model. The answers of the API server, the HTTP servers and the broker are
-- arguments; the clock is read once. Log lines are left out.
use sertay_thesis.Prelude.{Bool, false, Option, none, some, is_some, List, [], if◌then◌else◌}
use sertay_thesis.Prelude.Int.{ℤ, pos, ltb_ℤ}
use sertay_thesis.Prelude.Text.{String, ◌++◌, format_int}
use sertay_thesis.Prelude.Time.{Duration}
use sertay_thesis.Api.{WasmFunction}
use sertay_thesis.Placement.{PlacementDecision, resolve_placement_with_estimates}
use sertay_thesis.Artifact.Http.{Outcome, ok, err, Codec, Replies, PutRequest, effective_port}
use sertay_thesis.Artifact.Reconcile.{
  ArtifactDecision, SyncError, SyncResult, reconcile_artifact, artifact_status_condition,
}
use sertay_thesis.Readiness.{apply_destination_readiness}
use sertay_thesis.Control.Exec.{Control, Env}
use sertay_thesis.Control.Apply.{apply_placement}
use sertay_thesis.Estimator.Sample.{DeadlineTelemetryEstimator}
use sertay_thesis.Estimator.Snapshot.{estimate}
use sertay_thesis.Reconcile.Workload.{Deployment, Service}
use sertay_thesis.Reconcile.Ensure.{
  Found, absent, present, get_failed, Server, ensure_deployment, ensure_service,
  available_replicas_for_deployment,
}
use sertay_thesis.Reconcile.Status.{
  Meta, ReconcileStatusUpdate, StatusAttempt, available_status_condition,
  placement_status_condition, update_status,
}
use sertay_thesis.Reconcile.Requeue.{
  update_artifact_retry_state, requeue_on_error, requeue_pending_release,
}

-- What a run gets from outside.
pub record World : Type 0 where
  pub fetched : Found WasmFunction
  pub owner_error : Option String
  pub deployments : Server Deployment
  pub services : Server Service
  pub codec : Codec
  pub resolver : Option (WasmFunction → String)
  pub replies : Replies
  pub available : Option ℤ
  pub edge_runtime_available : Option Bool  -- the hook of the reconciler, if it has one
  pub estimator : Option DeadlineTelemetryEstimator
  pub env : Env
  pub meta : Meta
  pub status_attempts : List StatusAttempt

-- The memory of the reconciler and the messages after the run, the PUT requests to the host, the
-- stored resource, the delay to the next run and the error.
pub record Run : Type 0 where
  pub control : Control
  pub uploads : List PutRequest
  pub stored : Option WasmFunction
  pub requeue_after : Option Duration
  pub error : Option String

abbrev pub stopped : Control → Option String → Run
stopped c error = record {
  control = c;
  uploads = [];
  stored = none;
  requeue_after = none;
  error = error;
}

abbrev pub hook_or : Option Bool → Bool → Bool
hook_or none available = available
hook_or (some hook) available = hook

-- The status gets the digests before the decision is made.
unfoldable pub with_digests : WasmFunction → ArtifactDecision → WasmFunction
with_digests wf artifact = record wf {
  status = record wf.status {
    desired_artifact_digest = artifact.desired_digest;
    host_artifact_digest = artifact.host_digest;
    host_staged_artifact_digest = artifact.host_staged_digest;
  };
}

abbrev commanded_of : Outcome Bool → Bool
commanded_of (ok commanded) = commanded
commanded_of (err m) = false

abbrev pub error_of : Outcome Bool → Option String
error_of (ok commanded) = none
error_of (err m) = some m

-- Step 5: the resource, the decision and the memory before anything is published.
unfoldable pub decide :
    World → WasmFunction → ArtifactDecision → Option SyncError → WasmFunction × PlacementDecision
decide w wf artifact artifact_error =
    let replicas = available_replicas_for_deployment w.available in
    let runtime = hook_or w.edge_runtime_available (ltb_ℤ (pos 0) replicas) in
    let (noted, decision) =
      apply_destination_readiness wf (resolve_placement_with_estimates wf (estimate w.estimator wf))
        artifact runtime in
    (update_artifact_retry_state w.env.now noted artifact_error, decision)

-- A decision that is not enabled publishes nothing.
unfoldable pub command_placement :
    World → Control → PlacementDecision → ArtifactDecision → Outcome Bool × Control
command_placement w c decision artifact =
    if decision.enabled then apply_placement w.env decision artifact c else (ok false, c)

-- What is returned after updateStatus, with the delay where it did not fail.
abbrev pub end_run :
    Control → List PutRequest → Option Duration → Option WasmFunction × Option String → Run
end_run c puts delay (stored, error) = record {
  control = c;
  uploads = puts;
  stored = stored;
  requeue_after = if is_some error then none else delay;
  error = error;
}

-- Step 6: the status, and the delay to the next run.
unfoldable pub finish : World → SyncResult → PlacementDecision → Outcome Bool → Control → Run
finish w (artifact, artifact_error, puts) decision outcome c =
    let placement_error = error_of outcome in
    let update : ReconcileStatusUpdate = record {
      available_replicas = available_replicas_for_deployment w.available;
      endpoint =
          "http://"
          ++ c.wf.name
          ++ "."
          ++ c.wf.namespace
          ++ ":"
          ++ format_int (effective_port c.wf)
          ++ "/process";
      decision = decision;
      available = available_status_condition;
      artifact = artifact_status_condition c.wf artifact artifact_error;
      placement = placement_status_condition decision (commanded_of outcome) placement_error;
    } in
    let failed = requeue_on_error c.wf artifact_error placement_error in
    end_run c puts (if is_some failed then failed else requeue_pending_release c.wf w.env.now)
      (update_status w.meta w.status_attempts c.wf.status update)

-- Steps 4 to 6, for a resource with its workload.
unfoldable pub reconcile_release : World → Control → WasmFunction → Run
reconcile_release w c fetched =
    let (artifact, artifact_error, puts) =
      reconcile_artifact w.codec w.resolver fetched w.replies in
    let (wf, decision) = decide w (with_digests fetched artifact) artifact artifact_error in
    let (outcome, c') = command_placement w (record c { wf = wf }) decision artifact in
    finish w (artifact, artifact_error, puts) decision outcome c'

-- Steps 2 and 3.
unfoldable pub reconcile_workload : World → Control → WasmFunction → Run
reconcile_workload w c wf =
    let deployed = ensure_deployment w.owner_error w.deployments wf in
    let served = ensure_service w.owner_error w.services wf in
    if is_some deployed.1
    then stopped c deployed.1
    else if is_some served.1
    then stopped c served.1
    else reconcile_release w c wf

unfoldable pub reconcile : World → Control → Run
reconcile w c = elim (w.fetched) [
  | absent ↦ stopped c none
  | get_failed e ↦ stopped c (some e)
  | present wf ↦ reconcile_workload w c wf
]
