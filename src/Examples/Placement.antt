-- ===== src/Examples/Placement.antt =====
-- The placement theorems at a concrete resource.
use sertay_thesis.Prelude.{◌≡◌, ◌≢◌, ◌⊎◌, refl, true, false, some, arith}
use sertay_thesis.Prelude.Int.{pos, add32, sub32}
use sertay_thesis.Prelude.Text.{text_eq_iff, equal_fold, trim_space, to_lower}
use sertay_thesis.Api.{WasmFunction}
use sertay_thesis.Policy.{
  effective_deadline_enabled, effective_battery_threshold_enabled, effective_deadline_min_slack_ms,
  effective_deadline_safety_margin_ms,
}
use sertay_thesis.Deadline.{
  placement_local, placement_hybrid, deadline_candidate_cost, initial_evaluation, judge_slack,
  judge_candidate, judge_target, evaluate_deadline_admission,
}
use sertay_thesis.Placement.{
  has_device_local_resources, apply_resource_locality, current_placement,
  normalize_retained_placement, battery_percent_for_placement, low_threshold_of, high_threshold_of,
  configured_high_threshold_of, placement_mode, proposed_decision, resolve_placement_with_estimates,
  guardrail_holds, make_proposal, initial_decision, admit,
}
use sertay_thesis.Placement.Domain.{hybrid_needs_device, adopt}
use sertay_thesis.Placement.Battery.{IsLow, low_battery_offloads, retained_or_admitted}
use sertay_thesis.Placement.Hysteresis.{offload_settles, equal_thresholds_oscillate}
use sertay_thesis.Release.{
  device_release_ready, is_hex_digit, all_hex, normalize_artifact_digest, host_release_matches,
  device_release_staged,
}
use sertay_thesis.Readiness.{apply_destination_readiness, is_remote, note_reason, destination_ready}
use sertay_thesis.Readiness.Gate.{IsReady, gated, gated-IsReady}
use sertay_thesis.Artifact.Reconcile.{host_ready}
use sertay_thesis.Examples.Data.{
  reader, staged_reader, local_at, estimates, spec, placement, hosted,
}

reader-topic : reader.spec.device.control_topic ≢ ""
reader-topic = ground (arith, text_eq_iff "sif/esp32/control" "")

reader-IsLow : IsLow reader (pos 15)
unfolding effective_battery_threshold_enabled current_placement normalize_retained_placement
    battery_percent_for_placement low_threshold_of
reader-IsLow = record { enabled = refl; local = refl; battery = refl; low = omega arith }

low_battery_offloads_example :
    (resolve_placement_with_estimates reader estimates).desired ≡ placement_hybrid
unfolding apply_resource_locality has_device_local_resources equal_fold trim_space
low_battery_offloads_example =
    low_battery_offloads reader estimates {b = pos 15} reader-topic reader-IsLow

retained_or_admitted_example :
    let d = resolve_placement_with_estimates reader estimates in
    (d.desired ≡ current_placement reader)
    ⊎ ((d.desired ≡ apply_resource_locality reader (proposed_decision reader).proposal)
        × (d.candidate ≡ apply_resource_locality reader (proposed_decision reader).proposal)
        × (d.transition ≡ true)
        × (d.deadline.accepted ≡ true)
        × ((proposed_decision reader).proposal ≢ ""))
retained_or_admitted_example = retained_or_admitted reader estimates

-- The reader with half of its battery left.
abbrev half_reader : WasmFunction
half_reader = record reader { status = local_at (pos 50) }

offload_settles_example :
    let desired = (resolve_placement_with_estimates reader estimates).desired in
    (desired ≢ placement_local)
    × ((resolve_placement_with_estimates (adopt reader desired) estimates).desired ≡ desired)
unfolding to_lower placement_mode low_threshold_of high_threshold_of configured_high_threshold_of
offload_settles_example =
    offload_settles reader estimates {b = pos 15} reader-topic reader-IsLow refl (omega arith)

-- Both thresholds at the reported battery, and no deadline.
abbrev edge_case : WasmFunction
edge_case = record reader {
  spec = record spec {
    placement = record placement {
      low_battery_threshold = pos 15;
      high_battery_threshold = pos 15;
      deadline = record placement.deadline { enabled = some false };
    };
  };
}

edge_case-IsLow : IsLow edge_case (pos 15)
unfolding effective_battery_threshold_enabled current_placement normalize_retained_placement
    battery_percent_for_placement low_threshold_of
edge_case-IsLow = record { enabled = refl; local = refl; battery = refl; low = omega arith }

equal_thresholds_oscillate_example :
    let there = (resolve_placement_with_estimates edge_case estimates).desired in
    let back = (resolve_placement_with_estimates (adopt edge_case there) estimates).desired in
    (there ≢ placement_local)
    × (back ≡ placement_local)
    × ((resolve_placement_with_estimates (adopt (adopt edge_case there) back) estimates).desired
        ≡ there)
unfolding to_lower placement_mode low_threshold_of high_threshold_of configured_high_threshold_of
    effective_deadline_enabled
equal_thresholds_oscillate_example =
    equal_thresholds_oscillate edge_case estimates {b = pos 15} reader-topic edge_case-IsLow refl
      (omega arith) refl

hybrid_chosen : (resolve_placement_with_estimates reader estimates).desired ≡ placement_hybrid
unfolding apply_resource_locality has_device_local_resources equal_fold trim_space
hybrid_chosen = low_battery_offloads reader estimates {b = pos 15} reader-topic reader-IsLow

hybrid_needs_device_example :
    has_device_local_resources reader.spec.release.resource_contract ≡ true
hybrid_needs_device_example = hybrid_needs_device reader estimates hybrid_chosen

staged_current : current_placement staged_reader ≡ placement_local
unfolding current_placement normalize_retained_placement
staged_current = refl

staged_moves : (gated staged_reader estimates hosted true).desired ≡ placement_hybrid
unfolding effective_battery_threshold_enabled effective_deadline_enabled
    effective_deadline_min_slack_ms effective_deadline_safety_margin_ms deadline_candidate_cost
    initial_evaluation judge_slack judge_candidate judge_target evaluate_deadline_admission
    has_device_local_resources apply_resource_locality normalize_retained_placement
    current_placement battery_percent_for_placement low_threshold_of guardrail_holds make_proposal
    initial_decision admit proposed_decision resolve_placement_with_estimates is_hex_digit all_hex
    normalize_artifact_digest host_release_matches device_release_staged device_release_ready
    is_remote note_reason destination_ready apply_destination_readiness host_ready trim_space
    equal_fold add32 sub32
staged_moves = refl

gated-IsReady_example :
    IsReady staged_reader hosted true (gated staged_reader estimates hosted true).desired
    × ((gated staged_reader estimates hosted true).deadline.accepted ≡ true)
gated-IsReady_example =
    gated-IsReady staged_reader estimates hosted true
      (ground (arith, staged_current, staged_moves, text_eq_iff placement_local placement_hybrid))
