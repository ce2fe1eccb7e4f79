-- ===== src/Readiness.antt =====
-- The readiness of the destination: applyDestinationReadiness
-- (edge/operator/internal/controller/wasmfunction_controller.go). It writes the reason into the
-- status of the resource, so it returns the resource beside the decision.
pub mod Gate
use sertay_thesis.Prelude.{Bool, true, false, not, ◌||◌, ◌&&◌, if◌then◌else◌}
use sertay_thesis.Prelude.Text.{String, ◌++◌, text_eq}
use sertay_thesis.Api.{WasmFunction}
use sertay_thesis.Deadline.{placement_edge, placement_hybrid}
use sertay_thesis.Placement.{PlacementDecision, runtime_mode_for_placement}
use sertay_thesis.Release.{device_release_ready}
use sertay_thesis.Artifact.Reconcile.{ArtifactDecision, host_ready}

unfoldable pub is_remote : String → Bool
is_remote candidate = text_eq candidate placement_edge || text_eq candidate placement_hybrid

-- Writes the reason into the status and the decision.
unfoldable pub note_reason :
    WasmFunction → PlacementDecision → String → WasmFunction × PlacementDecision
note_reason wf d reason = (
  record wf { status = record wf.status { artifact_readiness_reason = reason } },
  record d { readiness_reason = reason },
)

unfoldable pub destination_ready : WasmFunction → PlacementDecision → ArtifactDecision → Bool → Bool
destination_ready wf d artifact edge_runtime_available =
    let device = device_release_ready wf artifact.desired_digest in
    if is_remote d.candidate
    then device && host_ready wf artifact && edge_runtime_available
    else device

unfoldable pub pending_reason : WasmFunction → PlacementDecision → ArtifactDecision → Bool → String
pending_reason wf d artifact edge_runtime_available =
    if is_remote d.candidate && not edge_runtime_available
    then "RuntimeUnavailable"
    else if is_remote d.candidate && not (host_ready wf artifact)
    then "HostStagePending"
    else "DeviceStagePending"

unfoldable pub apply_destination_readiness :
    WasmFunction → PlacementDecision → ArtifactDecision → Bool → WasmFunction × PlacementDecision
apply_destination_readiness wf d artifact edge_runtime_available =
    let reason = pending_reason wf d artifact edge_runtime_available in
    if not d.transition
    then note_reason wf d "CurrentPlacementActivation"
    else if destination_ready wf d artifact edge_runtime_available
    then note_reason wf d "DestinationReady"
    else note_reason wf
        (record d {
          desired = d.current;
          runtime_mode = runtime_mode_for_placement d.current;
          deadline = record d.deadline { accepted = false };
          reason =
              if d.hard
              then "ForcedRemotePendingArtifact: " ++ reason
              else "candidate readiness pending: " ++ reason;
        })
        reason
