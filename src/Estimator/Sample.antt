-- ===== src/Estimator/Sample.antt =====
-- The state of the estimator, its keys, and the samples that it takes from telemetry
-- (edge/operator/internal/controller/deadline_estimator.go).
use sertay_thesis.Prelude.{
  Bool, false, not, ◌&&◌, ◌||◌, Option, none, some, List, [], ◌∷◌, if◌then◌else◌, is_some,
}
use sertay_thesis.Prelude.Int.{ℤ, pos, leb_ℤ}
use sertay_thesis.Prelude.Text.{String, text_eq, trim_space, ◌++◌}
use sertay_thesis.Prelude.Time.{Time}
use sertay_thesis.Prelude.Maps.{string_eq}
use sertay_thesis.Api.{WasmFunction}
use sertay_thesis.Deadline.{DeadlineEstimateSnapshot, placement_local, placement_edge}
use sertay_thesis.Telemetry.{BatteryTelemetry}

-- deadlineTelemetrySample
pub record DeadlineTelemetrySample : Type 0 where
  pub sampled_at : Time
  pub local_execution_ms : Option ℤ
  pub local_queue_delay_ms : Option ℤ
  pub resource_wake_ms : Option ℤ
  pub edge_execution_ms : Option ℤ
  pub network_round_trip_ms : Option ℤ
  pub resource_collection_ms : Option ℤ
  pub output_application_ms : Option ℤ

-- deadlineProfile
pub record DeadlineProfile : Type 0 where
  pub local_execution_ms : ℤ
  pub local_queue_delay_ms : ℤ
  pub resource_wake_ms : ℤ
  pub edge_execution_ms : ℤ
  pub network_round_trip_ms : ℤ
  pub resource_collection_ms : ℤ
  pub output_application_ms : ℤ

-- DeadlineTelemetryEstimator, without its mutex
pub record DeadlineTelemetryEstimator : Type 0 where
  pub samples : List (String × List DeadlineTelemetrySample)
  pub profiles : List (String × DeadlineProfile)

-- A key of knownFunctionIdentities.
unfoldable pub known_function_identity : String → Bool
known_function_identity identity =
    text_eq identity "basic-edge-demo"
    || text_eq identity "dht-reader"
    || text_eq identity "hybrid-resource-demo"

unfoldable pub valid_deadline_profile : DeadlineProfile → Bool
valid_deadline_profile p =
    leb_ℤ (pos 0) p.local_execution_ms
    && leb_ℤ (pos 0) p.local_queue_delay_ms
    && leb_ℤ (pos 0) p.resource_wake_ms
    && leb_ℤ (pos 0) p.edge_execution_ms
    && leb_ℤ (pos 0) p.network_round_trip_ms
    && leb_ℤ (pos 0) p.resource_collection_ms
    && leb_ℤ (pos 0) p.output_application_ms

-- The loop of loadDeadlineProfilesFromEnvironment that deletes the entries it does not accept.
unfoldable pub accepted_profiles : List (String × DeadlineProfile) → List (String × DeadlineProfile)
accepted_profiles [] = []
accepted_profiles ((identity, p) ∷ profiles) =
    let rest = accepted_profiles profiles in
    if not (known_function_identity identity) || not (valid_deadline_profile p)
    then rest
    else (identity, p) ∷ rest

-- A snapshot with nothing but `known`: the other fields are zero.
abbrev pub unavailable : Bool → DeadlineEstimateSnapshot
unavailable known = record {
  identity_known = known;
  available = false;
  local_execution_ms = pos 0;
  local_queue_delay_ms = pos 0;
  resource_wake_ms = pos 0;
  edge_execution_ms = pos 0;
  network_round_trip_ms = pos 0;
  resource_collection_ms = pos 0;
  output_application_ms = pos 0;
  hybrid_round_trip_ms = pos 0;
  sample_count = pos 0;
}

unfoldable pub unavailable_deadline_estimate : WasmFunction → DeadlineEstimateSnapshot
unavailable_deadline_estimate wf =
    unavailable (known_function_identity (trim_space wf.spec.release.function_identity))

unfoldable pub deadline_estimator_function : WasmFunction → BatteryTelemetry → String
deadline_estimator_function wf telemetry =
    let selected = trim_space wf.spec.release.function_identity in
    if text_eq selected ""
    then ""
    else if not (text_eq telemetry.function "") && not (text_eq telemetry.function selected)
    then ""
    else selected

unfoldable pub deadline_estimator_key_prefix : String → String → String → String
deadline_estimator_key_prefix namespace name function = namespace ++ "/" ++ name ++ "/" ++ function

unfoldable pub deadline_estimator_key : String → String → String
deadline_estimator_key prefix mode = prefix ++ "/" ++ mode

unfoldable pub has_deadline_value : DeadlineTelemetrySample → Bool
has_deadline_value s =
    is_some s.local_execution_ms
    || is_some s.local_queue_delay_ms
    || is_some s.resource_wake_ms
    || is_some s.edge_execution_ms
    || is_some s.network_round_trip_ms
    || is_some s.resource_collection_ms
    || is_some s.output_application_ms

abbrev pub empty_sample : Time → DeadlineTelemetrySample
empty_sample now = record {
  sampled_at = now;
  local_execution_ms = none;
  local_queue_delay_ms = none;
  resource_wake_ms = none;
  edge_execution_ms = none;
  network_round_trip_ms = none;
  resource_collection_ms = none;
  output_application_ms = none;
}

abbrev pub valued : DeadlineTelemetrySample → Option DeadlineTelemetrySample
valued s = if has_deadline_value s then some s else none

-- A device that reports no network time reports its edge time as the execution.
abbrev pub edge_execution_of : BatteryTelemetry → Option ℤ
edge_execution_of t =
    if not (is_some t.edge_execution_ms) && not (is_some t.network_round_trip_ms)
    then t.execution_ms
    else t.edge_execution_ms

-- The sample, or nothing where the result is false.
unfoldable pub deadline_sample_from_telemetry :
    String → BatteryTelemetry → Time → Option DeadlineTelemetrySample
deadline_sample_from_telemetry mode t now =
    if text_eq mode placement_local
    then valued (record (empty_sample now) {
      local_execution_ms = t.execution_ms;
      local_queue_delay_ms = t.queue_delay_ms;
      resource_wake_ms = t.resource_wake_ms;
    })
    else if text_eq mode placement_edge
    then valued (record (empty_sample now) {
      edge_execution_ms = edge_execution_of t;
      network_round_trip_ms = t.network_round_trip_ms;
      resource_collection_ms = t.resource_collection_ms;
      output_application_ms = t.output_application_ms;
    })
    else none
