-- ===== src/Telemetry/Update.antt =====
-- A report of a device is written to the status of its resource (applyBatteryTelemetry and
-- updateObservedTelemetry of edge/operator/internal/controller/mqtt_telemetry.go).
pub mod Forces
pub mod Observed
pub mod Release
pub mod Retry
use sertay_thesis.Prelude.{
  Bool, true, false, not, ◌&&◌, ◌||◌, Option, none, some, is_some, List, [], ◌∷◌, if◌then◌else◌,
  bool_eq,
}
use sertay_thesis.Prelude.Int.{ℤ, pos, eq_ℤ}
use sertay_thesis.Prelude.Text.{String, ◌++◌, text_eq, trim_space}
use sertay_thesis.Prelude.Time.{Time}
use sertay_thesis.Prelude.Maps.{NamespacedName}
use sertay_thesis.Api.{WasmFunction, key_of}
use sertay_thesis.Api.Status.{WasmFunctionStatus}
use sertay_thesis.Release.{normalize_artifact_digest, device_release_staged, device_release_active}
use sertay_thesis.Estimator.Sample.{DeadlineTelemetryEstimator}
use sertay_thesis.Estimator.Record.{record_and_estimate}
use sertay_thesis.Telemetry.{
  BatteryTelemetry, TelemetryUpdateResult, no_update, telemetry_topic_for_device, clamp_battery,
  normalize_telemetry,
}
use sertay_thesis.Telemetry.Drain.{
  BatteryDrainTracker, equal_int32_ptr, update_battery_delta_status,
}

-- mqttTelemetryBridge, less its client
pub record Bridge : Type 0 where
  pub deadline_estimator : DeadlineTelemetryEstimator
  pub drain_tracker : BatteryDrainTracker

-- A text field of a report is taken over where it is not empty.
abbrev pub text_changes : String → String → Bool
text_changes old reported = not (text_eq reported "") && not (text_eq old reported)

-- A pointer field of a report is taken over where it is present.
abbrev pub some_changes : {A : Type 0} → (A → A → Bool) → A → Option A → Bool
some_changes eq old none = false
some_changes eq old (some reported) = not (eq old reported)

abbrev pub or_old : {A : Type 0} → A → Option A → A
or_old old none = old
or_old old (some reported) = reported

abbrev voltage_changes : Option ℤ → Option ℤ → Bool
voltage_changes old none = false
voltage_changes old (some reported) = not (equal_int32_ptr old (some reported))

abbrev or_old_voltage : Option ℤ → Option ℤ → Option ℤ
or_old_voltage old none = old
or_old_voltage old (some reported) = some reported

-- The fields whose change is logged.
unfoldable pub reportable_changes : WasmFunctionStatus → BatteryTelemetry → Bool
reportable_changes st t =
    text_changes st.observed_mode t.mode
    || some_changes bool_eq st.observed_admission_paused t.admission_paused
    || text_changes st.observed_battery_source t.source
    || text_changes st.observed_artifact_digest t.artifact_digest
    || some_changes eq_ℤ st.acknowledged_release_generation t.release_generation
    || some_changes text_eq st.device_staged_artifact_digest t.staged_artifact_digest
    || some_changes eq_ℤ st.staged_release_generation t.staged_generation
    || text_changes st.observed_function t.function

unfoldable pub status_changes : WasmFunctionStatus → BatteryTelemetry → ℤ → Bool
status_changes st t battery =
    not (equal_int32_ptr st.observed_battery_percent (some battery))
    || voltage_changes st.observed_voltage_millivolts t.voltage_mv
    || reportable_changes st t

-- The status with what the report says; a field that does not change keeps its value.
unfoldable pub observe_status :
    WasmFunctionStatus → BatteryTelemetry → ℤ → Time → WasmFunctionStatus
observe_status st t battery now = record st {
  observed_battery_percent = some battery;
  observed_mode = if text_changes st.observed_mode t.mode then t.mode else st.observed_mode;
  observed_admission_paused = or_old st.observed_admission_paused t.admission_paused;
  observed_battery_source =
      if text_changes st.observed_battery_source t.source
      then t.source
      else st.observed_battery_source;
  observed_voltage_millivolts = or_old_voltage st.observed_voltage_millivolts t.voltage_mv;
  observed_artifact_digest =
      if text_changes st.observed_artifact_digest t.artifact_digest
      then t.artifact_digest
      else st.observed_artifact_digest;
  acknowledged_release_generation = or_old st.acknowledged_release_generation t.release_generation;
  device_staged_artifact_digest = or_old st.device_staged_artifact_digest t.staged_artifact_digest;
  staged_release_generation = or_old st.staged_release_generation t.staged_generation;
  observed_function =
      if text_changes st.observed_function t.function then t.function else st.observed_function;
  last_telemetry_time = some now;
}

-- What one run of the closure that is retried comes to, up to the patch.
pub record Observation : Type 0 where
  pub bridge : Bridge
  pub wf : WasmFunction
  pub result : TelemetryUpdateResult

unfoldable pub observe_telemetry :
    Bridge
    → NamespacedName
    → BatteryTelemetry
    → ℤ
    → WasmFunction
    → Time
    → TelemetryUpdateResult
    → Observation
observe_telemetry b key t battery fetched now result =
    let digest = normalize_artifact_digest fetched.spec.release.artifact_digest in
    let (tracker, (drained, counted)) =
      update_battery_delta_status b.drain_tracker key fetched t battery now result in
    let (_, estimator) = record_and_estimate b.deadline_estimator drained t now in
    let wf : WasmFunction = record drained {
      status = observe_status drained.status t battery now;
    } in
    record {
      bridge = record { deadline_estimator = estimator; drain_tracker = tracker };
      wf = wf;
      result = record {
        status_changed = counted.status_changed || status_changes drained.status t battery;
        reportable_info = counted.reportable_info || reportable_changes drained.status t;
        staged_release_acknowledged =
            not (device_release_staged fetched digest) && device_release_staged wf digest;
        activated_release_acknowledged =
            not (device_release_active fetched digest) && device_release_active wf digest;
      };
    }

-- What the API server answers to Get and to Patch.
pub data Fetched : Type 0 where
  not_found : Fetched
  fetch_failed : String → Fetched
  found : WasmFunction → Fetched

pub data Patched : Type 0 where
  patched : Patched
  conflict : Patched
  patch_failed : String → Patched

-- One run of the closure: the answers and the time.
pub record Attempt : Type 0 where
  pub fetch : Fetched
  pub patch : Patched
  pub now : Time

-- What the server stores, less that nothing else writes to it, and the error.
pub record Outcome : Type 0 where
  pub bridge : Bridge
  pub stored : Option WasmFunction
  pub result : TelemetryUpdateResult
  pub error : Option String

-- updateObservedTelemetry. The attempts are the runs that RetryOnConflict allows; it runs the
-- closure again only after a conflict. The bridge and the result outlive a run.
unfoldable pub update_observed_telemetry :
    List Attempt → Bridge → NamespacedName → BatteryTelemetry → ℤ → TelemetryUpdateResult → Outcome
update_observed_telemetry [] b key t battery result = record {
  bridge = b;
  stored = none;
  result = result;
  error = some "conflict";
}
update_observed_telemetry (a ∷ attempts) b key t battery result = elim (a.fetch) [
  | not_found ↦ record { bridge = b; stored = none; result = result; error = none }
  | fetch_failed e ↦ record { bridge = b; stored = none; result = result; error = some e }
  | found wf ↦
      let o = observe_telemetry b key t battery wf a.now result in
      let again = update_observed_telemetry attempts o.bridge key t battery o.result in
      elim (a.patch) [
        | patched ↦ record {
          bridge = o.bridge;
          stored = some o.wf;
          result = o.result;
          error = none;
        }
        | conflict ↦ again
        | patch_failed e ↦ record {
          bridge = o.bridge;
          stored = none;
          result = o.result;
          error = some e;
        }
      ]
]

abbrev pub written_of : Option WasmFunction → List WasmFunction → List WasmFunction
written_of none rest = rest
written_of (some wf) rest = wf ∷ rest

-- The resources that a report on a topic is for, with the attempts of each.
unfoldable pub update_matching :
    String
    → List (WasmFunction × List Attempt)
    → Bridge
    → BatteryTelemetry
    → ℤ
    → Bridge × (List WasmFunction × Option String)
update_matching topic [] b t battery = (b, ([], none))
update_matching topic ((wf, attempts) ∷ items) b t battery =
    let listens = text_eq (telemetry_topic_for_device wf.spec.device) topic in
    let o = update_observed_telemetry attempts b (key_of wf) t battery no_update in
    let (b', (stored, error)) =
      update_matching topic items (if listens then o.bridge else b) t battery in
    if not listens
    then (b', (stored, error))
    else if is_some o.error
    then (o.bridge, (written_of o.stored [], o.error))
    else (b', (written_of o.stored stored, error))

-- applyBatteryTelemetry, after json.Unmarshal of the payload and with what List answers.
unfoldable pub apply_battery_telemetry :
    Option String
    → Option String
    → List (WasmFunction × List Attempt)
    → Bridge
    → String
    → BatteryTelemetry
    → Bridge × (List WasmFunction × Option String)
apply_battery_telemetry (some decode_error) list_error items b topic t =
    (b, ([], some ("decode telemetry payload: " ++ decode_error)))
apply_battery_telemetry none list_error items b topic t = elim (t.battery_percent) [
  | none ↦ (b, ([], some "telemetry payload missing batteryPercent"))
  | some percent ↦ elim list_error [
    | some e ↦ (b, ([], some e))
    | none ↦ update_matching topic items b (normalize_telemetry t) (clamp_battery percent)
  ]
]
