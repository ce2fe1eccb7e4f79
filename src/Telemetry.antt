-- ===== src/Telemetry.antt =====
-- What a device reports, and how the operator cleans it up before it is used
-- (edge/operator/internal/controller/mqtt_telemetry.go).
pub mod Drain
pub mod Update
pub mod Session
use sertay_thesis.Prelude.{ℕ, Bool, true, false, not, ◌&&◌, Option, none, some, List, if◌then◌else◌}
use sertay_thesis.Prelude.Int.{ℤ, pos, ltb_ℤ}
use sertay_thesis.Prelude.Text.{String, ◌++◌, text_eq, trim_space, to_lower, trim_right_code}
use sertay_thesis.Api.Spec.{DeviceSpec}
use sertay_thesis.Release.{normalize_artifact_digest}

-- batteryTelemetry; a pointer is nothing where the payload has no such field
pub record BatteryTelemetry : Type 0 where
  pub battery_percent : Option ℤ  -- *int32
  pub mode : String
  pub source : String
  pub voltage_mv : Option ℤ  -- *int32
  pub artifact_digest : String
  pub release_generation : Option ℤ  -- *int64
  pub staged_artifact_digest : Option String
  pub staged_generation : Option ℤ  -- *int64
  pub admission_paused : Option Bool
  pub function : String
  pub execution_ms : Option ℤ  -- *int32, and so all below
  pub queue_delay_ms : Option ℤ
  pub resource_wake_ms : Option ℤ
  pub resource_collection_ms : Option ℤ
  pub network_round_trip_ms : Option ℤ
  pub edge_execution_ms : Option ℤ
  pub output_application_ms : Option ℤ

-- telemetryUpdateResult
pub record TelemetryUpdateResult : Type 0 where
  pub status_changed : Bool
  pub reportable_info : Bool
  pub staged_release_acknowledged : Bool
  pub activated_release_acknowledged : Bool

abbrev pub no_update : TelemetryUpdateResult
no_update = record {
  status_changed = false;
  reportable_info = false;
  staged_release_acknowledged = false;
  activated_release_acknowledged = false;
}

unfoldable pub telemetry_topic_for_device : DeviceSpec → String
telemetry_topic_for_device device =
    if not (text_eq device.telemetry_topic "")
    then trim_space device.telemetry_topic
    else if text_eq device.control_topic ""
    then ""
    else trim_right_code b'/' device.control_topic ++ "/telemetry"

unfoldable pub clamp_non_negative_int32 : Option ℤ → Option ℤ
clamp_non_negative_int32 none = none
clamp_non_negative_int32 (some v) = if ltb_ℤ v (pos 0) then some (pos 0) else some v

-- The percentage, kept between 0 and 100.
unfoldable pub clamp_battery : ℤ → ℤ
clamp_battery battery =
    let raised = if ltb_ℤ battery (pos 0) then pos 0 else battery in
    if ltb_ℤ (pos 100) raised then pos 100 else raised

abbrev pub map_digest : Option String → Option String
map_digest none = none
map_digest (some digest) = some (normalize_artifact_digest digest)

-- The assignments of applyBatteryTelemetry to the decoded payload.
unfoldable pub normalize_telemetry : BatteryTelemetry → BatteryTelemetry
normalize_telemetry t = record t {
  mode = to_lower (trim_space t.mode);
  source = to_lower (trim_space t.source);
  function = trim_space t.function;
  artifact_digest = normalize_artifact_digest t.artifact_digest;
  staged_artifact_digest = map_digest t.staged_artifact_digest;
  voltage_mv = clamp_non_negative_int32 t.voltage_mv;
  execution_ms = clamp_non_negative_int32 t.execution_ms;
  queue_delay_ms = clamp_non_negative_int32 t.queue_delay_ms;
  resource_wake_ms = clamp_non_negative_int32 t.resource_wake_ms;
  resource_collection_ms = clamp_non_negative_int32 t.resource_collection_ms;
  network_round_trip_ms = clamp_non_negative_int32 t.network_round_trip_ms;
  edge_execution_ms = clamp_non_negative_int32 t.edge_execution_ms;
  output_application_ms = clamp_non_negative_int32 t.output_application_ms;
}
