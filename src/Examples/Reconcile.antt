-- ===== src/Examples/Reconcile.antt =====
-- The theorems on the reconcile loop at a run that moves the reader off the device.
use sertay_thesis.Prelude.{
  ◌≡◌, ◌≢◌, ◌<◌, ◌≤◌, ◌*◌, refl, true, Option, none, some, is_some, [], ◌∷◌, sym, ◌∙◌, ◌+◌, arith,
}
use sertay_thesis.Prelude.Int.{ℤ, pos}
use sertay_thesis.Prelude.Text.{text_eq_iff, trim_space, to_lower, equal_fold, format_int}
use sertay_thesis.Prelude.Time.{Duration, second}
use sertay_thesis.Api.{WasmFunction}
use sertay_thesis.Api.Spec.{WasmFunctionSpec}
use sertay_thesis.Api.Status.{empty_status}
use sertay_thesis.Locality.{
  normalize_retained_placement, current_placement, battery_percent_for_placement,
  has_device_local_resources, apply_resource_locality, low_threshold_of,
}
use sertay_thesis.Readiness.Gate.{IsReady}
use sertay_thesis.Control.Exec.{Control}
use sertay_thesis.Control.Stage.{
  send_in_status, later_send, last_stage_send, next_attempt, claim_release_stage_attempt,
}
use sertay_thesis.Release.{
  normalize_artifact_digest, release_delivery_state, is_hex_digit, all_hex, artifact_digest_for_log,
  artifact_digest_from_headers, host_release_matches, device_release_staged, device_release_active,
  device_release_ready, stage_command_id, no_release,
}
use sertay_thesis.Artifact.Http.{
  ok, operator_artifact_url, check_digest, check_length, read_artifact, fetch_artifact,
  fetch_artifact_digest, read_status, fetch_host_release_status, upload_artifact, read_put_reply,
}
use sertay_thesis.Prelude.Maps.{namespaced_name_eq, lookup}
use sertay_thesis.Reconcile.Requeue.{requeue_pending_release}
use sertay_thesis.Reconcile.Backoff.{stage_requeue_claims}
use sertay_thesis.Reconcile.Ensure.{
  available_replicas_for_deployment, absent, present, get_failed, ensure_deployment, ensure_service,
  ensure, ensure_found,
}
use sertay_thesis.Reconcile.Status.{Meta, stored, stale, update_status}
use sertay_thesis.Reconcile.Run.{
  World, reconcile, reconcile_workload, reconcile_release, finish, with_digests, decide,
}
use sertay_thesis.Reconcile.Converges.{RunsTemplate, IsEnsured, ensure_deployment_lem}
use sertay_thesis.Reconcile.Outcomes.{
  artifact_of, decision_of, noted_of, runtime_of, reconcile_moves-IsReady, reconcile-HasDecision,
}
use sertay_thesis.Reconcile.Ended.{Ended}
use sertay_thesis.Reconcile.Battery.{fallback_battery_sticks}
use sertay_thesis.Policy.{effective_battery_threshold_enabled, effective_deadline_enabled}
use sertay_thesis.Deadline.{initial_evaluation, abstain, judge_target, evaluate_deadline_admission}
use sertay_thesis.Placement.{
  guardrail_holds, make_proposal, initial_decision, admit, proposed_decision,
  resolve_placement_with_estimates,
}
use sertay_thesis.Artifact.Reconcile.{
  with_host_status, host_ready, push_artifact, sync_host, check_declared, reconcile_artifact,
}
use sertay_thesis.Readiness.{is_remote, note_reason, destination_ready, apply_destination_readiness}
use sertay_thesis.Estimator.Sample.{known_function_identity, unavailable_deadline_estimate}
use sertay_thesis.Estimator.Snapshot.{estimate}
use sertay_thesis.Examples.Artifact.{codec, replies}
use sertay_thesis.Examples.Data.{digest, spec, placement, reader, staged_reader, control, env}

-- Keeps every condition it is given.
abbrev meta : Meta
meta = record {
  set_status_condition = λ conditions c. c ∷ conditions;
  remove_status_condition = λ conditions name. conditions;
}

-- Nothing is there yet, and every call succeeds.
abbrev world : WasmFunction → World
world wf = record {
  fetched = present wf;
  owner_error = none;
  deployments = record { get = absent; create_error = none; updates = [] };
  services = record { get = absent; create_error = none; updates = [] };
  codec = codec;
  resolver = none;
  replies = replies;
  available = some (pos 1);
  edge_runtime_available = none;
  estimator = none;
  env = env;
  meta = meta;
  status_attempts = stored wf ∷ [];
}

abbrev resource_or : WasmFunction → Option WasmFunction → WasmFunction
resource_or default none = default
resource_or default (some wf) = wf

resource_or_lem :
    (default : WasmFunction) (o : Option WasmFunction)
    → is_some o ≡ true
    → o ≡ some (resource_or default o)
resource_or_lem default none h = absurd (ground (arith, h))
resource_or_lem default (some wf) h = refl

-- What the run over a resource stores.
abbrev result : WasmFunction → WasmFunction
result wf = resource_or wf (reconcile (world wf) control).stored

is_stored : (wf : WasmFunction) → (reconcile (world wf) control).stored ≡ some (result wf)
unfolding reconcile reconcile_workload reconcile_release finish ensure_deployment ensure_service
    ensure ensure_found update_status
is_stored wf = resource_or_lem wf (reconcile (world wf) control).stored refl

moved : (decision_of (world staged_reader) staged_reader).desired ≡ "hybrid"
unfolding trim_space equal_fold effective_battery_threshold_enabled effective_deadline_enabled
    initial_evaluation abstain judge_target evaluate_deadline_admission has_device_local_resources
    apply_resource_locality normalize_retained_placement current_placement
    battery_percent_for_placement low_threshold_of guardrail_holds make_proposal initial_decision
    admit proposed_decision resolve_placement_with_estimates is_hex_digit all_hex
    normalize_artifact_digest artifact_digest_from_headers host_release_matches
    device_release_staged device_release_ready operator_artifact_url check_digest check_length
    read_artifact fetch_artifact fetch_artifact_digest read_status fetch_host_release_status
    upload_artifact read_put_reply with_host_status host_ready push_artifact sync_host
    check_declared reconcile_artifact is_remote note_reason destination_ready
    apply_destination_readiness known_function_identity unavailable_deadline_estimate estimate
    with_digests decide available_replicas_for_deployment
moved = refl

here : current_placement staged_reader ≡ "local"
unfolding current_placement normalize_retained_placement
here = refl

result-hybrid : (result staged_reader).status.desired_placement ≡ "hybrid"
result-hybrid =
    (reconcile-HasDecision (world staged_reader) control staged_reader (result staged_reader) refl
      (is_stored staged_reader)).0
    ∙ moved

result-moved : (result staged_reader).status.desired_placement ≢ current_placement staged_reader
result-moved same = ground (arith, text_eq_iff "hybrid" "local", sym result-hybrid ∙ same ∙ here)

reconcile_moves-IsReady_example :
    IsReady
      (noted_of (world staged_reader) staged_reader)
      (artifact_of (world staged_reader) staged_reader).0
      (runtime_of (world staged_reader))
      (result staged_reader).status.desired_placement
    × ((decision_of (world staged_reader) staged_reader).deadline.accepted ≡ true)
reconcile_moves-IsReady_example =
    reconcile_moves-IsReady (world staged_reader) control staged_reader (result staged_reader) refl
      (is_stored staged_reader) result-moved

-- The server fails the first Get.
failing :
    (reconcile (record (world reader) { fetched = get_failed "timeout" }) control).error
    ≡ some "timeout"
unfolding reconcile
failing = refl

-- The status never gets past a conflict.
abbrev contended : World
contended = record (world reader) { status_attempts = stale reader ∷ stale reader ∷ [] }

contended-error : (reconcile contended control).error ≡ some "conflict"
unfolding reconcile reconcile_workload reconcile_release finish ensure_deployment ensure_service
    ensure ensure_found update_status
contended-error = refl

ensure_deployment_lem_example :
    IsEnsured (RunsTemplate reader) (ensure_deployment none (world reader).deployments reader)
ensure_deployment_lem_example = ensure_deployment_lem (world reader).deployments reader

-- The reader with a battery percentage in its spec, before any telemetry.
abbrev with_fallback : ℤ → WasmFunctionSpec
with_fallback percent = record spec {
  placement = record placement { battery_percent = some percent };
}

abbrev unobserved : WasmFunction
unobserved = record reader { spec = with_fallback (pos 80); status = empty_status }

fallback_battery_sticks_example :
    battery_percent_for_placement (record (result unobserved) { spec = with_fallback (pos 10) })
    ≡ some (pos 80)
unfolding battery_percent_for_placement
fallback_battery_sticks_example =
    fallback_battery_sticks (world unobserved) control unobserved (result unobserved)
      (with_fallback (pos 10)) refl (is_stored unobserved) refl

-- The stage command was sent 10 seconds ago, for the first time.
abbrev awaiting : WasmFunction
awaiting = record reader {
  status = record reader.status {
    last_stage_command_id = "stage-5-aaaaaaaaaaaa...";
    last_stage_command_time = some (100 * second);
    stage_command_attempts = pos 1;
  };
}

abbrev after_stage : Control
after_stage = record control { wf = awaiting }

awaits : release_delivery_state awaiting (normalize_artifact_digest digest) ≡ "AwaitingStageAck"
unfolding trim_space to_lower format_int is_hex_digit all_hex normalize_artifact_digest
    artifact_digest_for_log device_release_staged device_release_active stage_command_id no_release
    release_delivery_state
awaits = refl

stage_requeue_claims_example :
    (delay : Duration) × ((requeue_pending_release awaiting (110 * second) ≡ some delay)
      × (0 < delay)
      × (delay ≤ 60 * second)
      × ((claim_release_stage_attempt "stage-5-aaaaaaaaaaaa..."
            (110 * second + delay)
            after_stage).0
          ≡ ok (some (next_attempt (last_stage_send after_stage "stage-5-aaaaaaaaaaaa...")))))
unfolding last_stage_send send_in_status later_send lookup
stage_requeue_claims_example =
    stage_requeue_claims awaiting after_stage "stage-5-aaaaaaaaaaaa..." (100 * second)
      (110 * second) awaits refl (omega arith) refl
