-- ===== src/Estimator/Snapshot.antt =====
-- The estimates for a resource: from the profile of its function, and from the samples
-- (profileEstimate, snapshotLocked and estimate of
-- edge/operator/internal/controller/deadline_estimator.go).
use sertay_thesis.Prelude.{◌+◌, true, not, Option, none, some, List, [], length, if◌then◌else◌}
use sertay_thesis.Prelude.Int.{ℤ, pos, ltb_ℤ, add32, wrap32}
use sertay_thesis.Prelude.Text.{String, text_eq, trim_space}
use sertay_thesis.Prelude.Maps.{string_eq, lookup}
use sertay_thesis.Api.{WasmFunction}
use sertay_thesis.Policy.{
  effective_deadline_estimator_min_samples, effective_deadline_estimator_percentile,
}
use sertay_thesis.Deadline.{DeadlineEstimateSnapshot, placement_local, placement_edge}
use sertay_thesis.Estimator.Sample.{
  DeadlineTelemetrySample, DeadlineProfile, DeadlineTelemetryEstimator, known_function_identity,
  unavailable, unavailable_deadline_estimate, deadline_estimator_key_prefix, deadline_estimator_key,
}
use sertay_thesis.Estimator.Percentile.{estimate_deadline_percentile}

-- A configured fallback that is positive stands before the profile.
abbrev pub fallback_or : ℤ → ℤ → ℤ
fallback_or configured profiled = if ltb_ℤ (pos 0) configured then configured else profiled

-- The four int32 stages of hybrid placement.
abbrev pub hybrid_round_trip : ℤ → ℤ → ℤ → ℤ → ℤ
hybrid_round_trip collection network edge output =
    add32 (add32 (add32 collection network) edge) output

unfoldable pub estimate_of_profile : WasmFunction → DeadlineProfile → DeadlineEstimateSnapshot
estimate_of_profile wf profile =
    let fallbacks = wf.spec.placement.deadline.estimator in
    let local = fallback_or fallbacks.fallback_local_execution_ms profile.local_execution_ms in
    let edge = fallback_or fallbacks.fallback_edge_execution_ms profile.edge_execution_ms in
    let network =
      fallback_or fallbacks.fallback_network_round_trip_ms profile.network_round_trip_ms in
    let collection =
      fallback_or fallbacks.fallback_resource_collection_ms profile.resource_collection_ms in
    record {
      identity_known = true;
      available = true;
      local_execution_ms = local;
      local_queue_delay_ms = profile.local_queue_delay_ms;
      resource_wake_ms = profile.resource_wake_ms;
      edge_execution_ms = edge;
      network_round_trip_ms = network;
      resource_collection_ms = collection;
      output_application_ms = profile.output_application_ms;
      hybrid_round_trip_ms =
          hybrid_round_trip collection network edge profile.output_application_ms;
      sample_count = pos 0;
    }

unfoldable pub profile_estimate :
    DeadlineTelemetryEstimator → WasmFunction → DeadlineEstimateSnapshot
profile_estimate e wf =
    let identity = trim_space wf.spec.release.function_identity in
    elim (lookup identity e.profiles) [
      | none ↦ unavailable (known_function_identity identity)
      | some profile ↦ estimate_of_profile wf profile
    ]

-- The samples of a key, none where the map has no such key.
abbrev pub samples_of : Option (List DeadlineTelemetrySample) → List DeadlineTelemetrySample
samples_of none = []
samples_of (some samples) = samples

-- The part of snapshotLocked behind the available fallback.
unfoldable pub snapshot_of :
    WasmFunction
    → DeadlineEstimateSnapshot
    → List DeadlineTelemetrySample
    → List DeadlineTelemetrySample
    → DeadlineEstimateSnapshot
snapshot_of wf fallback locals edges =
    let m = effective_deadline_estimator_min_samples wf in
    let p = effective_deadline_estimator_percentile wf in
    let edge =
      estimate_deadline_percentile edges (λ s. s.edge_execution_ms) m p
        fallback.edge_execution_ms in
    let network =
      estimate_deadline_percentile edges (λ s. s.network_round_trip_ms) m p
        fallback.network_round_trip_ms in
    let collection =
      estimate_deadline_percentile edges (λ s. s.resource_collection_ms) m p
        fallback.resource_collection_ms in
    let output =
      estimate_deadline_percentile edges (λ s. s.output_application_ms) m p
        fallback.output_application_ms in
    record {
      identity_known = true;
      available = true;
      local_execution_ms =
          estimate_deadline_percentile locals (λ s. s.local_execution_ms) m p
            fallback.local_execution_ms;
      local_queue_delay_ms =
          estimate_deadline_percentile locals (λ s. s.local_queue_delay_ms) m p
            fallback.local_queue_delay_ms;
      resource_wake_ms =
          estimate_deadline_percentile locals (λ s. s.resource_wake_ms) m p
            fallback.resource_wake_ms;
      edge_execution_ms = edge;
      network_round_trip_ms = network;
      resource_collection_ms = collection;
      output_application_ms = output;
      hybrid_round_trip_ms = hybrid_round_trip collection network edge output;
      sample_count = wrap32 (pos (length locals + length edges));
    }

unfoldable pub snapshot_locked :
    DeadlineTelemetryEstimator → WasmFunction → String → DeadlineEstimateSnapshot
snapshot_locked e wf prefix =
    let fallback = profile_estimate e wf in
    if not fallback.available
    then fallback
    else snapshot_of wf fallback
        (samples_of (lookup (deadline_estimator_key prefix placement_local) e.samples))
        (samples_of (lookup (deadline_estimator_key prefix placement_edge) e.samples))

-- The estimate for a resource; nothing stands for a nil estimator.
unfoldable pub estimate :
    Option DeadlineTelemetryEstimator → WasmFunction → DeadlineEstimateSnapshot
estimate none wf = unavailable_deadline_estimate wf
estimate (some e) wf =
    let identity = trim_space wf.spec.release.function_identity in
    if text_eq identity ""
    then unavailable_deadline_estimate wf
    else snapshot_locked e wf (deadline_estimator_key_prefix wf.namespace wf.name identity)
