-- ===== src/Telemetry/Drain.antt =====
-- The battery drain of a device (batteryDrainState, updateBatteryDeltaStatus, setBatteryDrainStatus,
-- equalInt32Ptr and latestTelemetryMode of
-- edge/operator/internal/controller/mqtt_telemetry.go). The tracker's mutex is not modelled: the
-- bridge handles one report at a time.
pub mod Spec
pub mod Refines
pub mod Percent
use sertay_thesis.Prelude.{
  ℕ, ◌*◌, ◌-◌, ◌+◌, Bool, true, false, not, ◌&&◌, ◌||◌, Option, none, some, is_some, List, [], ◌∷◌,
  length, snoc, ltb, ◌==◌, if◌then◌else◌,
}
use sertay_thesis.Prelude.Int.{ℤ, pos, pos_part, ltb_ℤ, leb_ℤ, eq_ℤ, add32, sub32}
use sertay_thesis.Prelude.Text.{String, text_eq, trim_space}
use sertay_thesis.Prelude.Time.{Time, is_zero, second}
use sertay_thesis.Prelude.Maps.{NamespacedName, namespaced_name_eq, lookup, insert, delete}
use sertay_thesis.Api.{WasmFunction}
use sertay_thesis.Api.Status.{WasmFunctionStatus}
use sertay_thesis.Policy.{
  default_low_battery_threshold, default_high_battery_threshold, effective_battery_delta_enabled,
  effective_battery_delta_window_seconds, effective_battery_delta_max_drain_percent,
}
use sertay_thesis.Deadline.{placement_local}
use sertay_thesis.Window.{kept_since}
use sertay_thesis.Telemetry.{BatteryTelemetry, TelemetryUpdateResult}

pub record BatteryDrainSample : Type 0 where
  pub sampled_at : Time
  pub battery : ℤ  -- int32

pub record BatteryDrainState : Type 0 where
  pub source : String
  pub function : String
  pub mode : String
  pub last_observed : Time
  pub samples : List BatteryDrainSample
  pub risky_windows : ℤ  -- int32

-- batteryDrainTracker
abbrev pub BatteryDrainTracker : Type 0
BatteryDrainTracker = List (NamespacedName × BatteryDrainState)

-- The two optional values are the same.
unfoldable pub equal_int32_ptr : Option ℤ → Option ℤ → Bool
equal_int32_ptr none none = true
equal_int32_ptr none (some b) = false
equal_int32_ptr (some a) none = false
equal_int32_ptr (some a) (some b) = eq_ℤ a b

abbrev pub text_or : String → String → String
text_or s fallback = if text_eq s "" then fallback else s

unfoldable pub latest_telemetry_mode : WasmFunction → BatteryTelemetry → String
latest_telemetry_mode wf telemetry = text_or telemetry.mode wf.status.observed_mode

abbrev threshold_or : ℤ → ℤ → ℤ
threshold_or configured fallback = if eq_ℤ configured (pos 0) then fallback else configured

-- One report of a battery level: who sent it, in which mode, and when.
pub record DrainReport : Type 0 where
  pub source : String
  pub function : String
  pub mode : String
  pub battery : ℤ
  pub at : Time

unfoldable pub drain_report : WasmFunction → BatteryTelemetry → ℤ → Time → DrainReport
drain_report wf telemetry battery now = record {
  source = text_or telemetry.source wf.status.observed_battery_source;
  function = text_or telemetry.function (trim_space wf.spec.release.function_identity);
  mode = latest_telemetry_mode wf telemetry;
  battery = battery;
  at = now;
}

-- The window in nanoseconds.
abbrev pub drain_window : WasmFunction → ℕ
drain_window wf = pos_part (effective_battery_delta_window_seconds wf) * second

unfoldable pub same_streak : WasmFunction → BatteryDrainState → DrainReport → Bool
same_streak wf state r =
    let gap =
      not (is_zero state.last_observed) && ltb (drain_window wf) (r.at - state.last_observed) in
    text_eq state.source r.source
    && text_eq state.function r.function
    && text_eq state.mode r.mode
    && not gap

abbrev pub new_drain_state : DrainReport → BatteryDrainState
new_drain_state r = record {
  source = r.source;
  function = r.function;
  mode = r.mode;
  last_observed = 0;
  samples = [];
  risky_windows = pos 0;
}

-- The state the report is added to: a new one where the source, the function or the mode changed,
-- or nothing came for longer than the window.
unfoldable pub drain_state_for :
    WasmFunction → Option BatteryDrainState → DrainReport → BatteryDrainState
drain_state_for wf before r = elim before [
  | none ↦ new_drain_state r
  | some state ↦ if same_streak wf state r then state else new_drain_state r
]

unfoldable pub applicable : WasmFunction → DrainReport → Bool
applicable wf r =
    let low = threshold_or wf.spec.placement.low_battery_threshold default_low_battery_threshold in
    let high =
      threshold_or wf.spec.placement.high_battery_threshold default_high_battery_threshold in
    text_eq r.mode placement_local && ltb_ℤ low r.battery && ltb_ℤ r.battery high

-- The fall from the oldest sample of the window, 0 where the battery rose; nothing for an empty window.
unfoldable pub drain_of : List BatteryDrainSample → ℤ → Option ℤ
drain_of [] battery = none
drain_of (oldest ∷ rest) battery =
    let delta = sub32 oldest.battery battery in some (if ltb_ℤ delta (pos 0) then pos 0 else delta)

-- How many risky windows in a row, after a window with this fall.
unfoldable pub risky_after : WasmFunction → ℤ → Option ℤ → ℤ
risky_after wf risky none = pos 0
risky_after wf risky (some delta) =
    if leb_ℤ (effective_battery_delta_max_drain_percent wf) delta
    then add32 risky (pos 1)
    else pos 0

-- The fall over the samples of a window, which takes two.
unfoldable pub window_drain : List BatteryDrainSample → ℤ → Option ℤ
window_drain samples battery = if ltb (length samples) 2 then none else drain_of samples battery

-- The report is added to the state, which says the fall of the battery.
unfoldable pub add_report :
    WasmFunction → BatteryDrainState → DrainReport → BatteryDrainState × Option ℤ
add_report wf state r =
    let kept = kept_since (λ s. s.sampled_at) (r.at - drain_window wf) state.samples in
    let samples = snoc kept (record { sampled_at = r.at; battery = r.battery }) in
    let delta = window_drain samples r.battery in
    if applicable wf r
    then (
      record state {
        last_observed = r.at;
        samples = samples;
        risky_windows = risky_after wf state.risky_windows delta;
      },
      delta,
    )
    else (record state { last_observed = r.at; samples = []; risky_windows = pos 0 }, none)

-- What updateBatteryDeltaStatus does to the state of a key, with the fall it reports.
unfoldable pub observe_battery :
    WasmFunction → Option BatteryDrainState → DrainReport → BatteryDrainState × Option ℤ
observe_battery wf before r = add_report wf (drain_state_for wf before r) r

-- The three fields of the status.
unfoldable pub put_drain_status : WasmFunctionStatus → Option ℤ → Option ℤ → ℤ → WasmFunctionStatus
put_drain_status status delta window risky = record status {
  observed_battery_delta_percent = delta;
  observed_battery_delta_window_seconds = window;
  consecutive_risky_windows = risky;
}

-- Whether setBatteryDrainStatus changes the status.
unfoldable pub drain_status_changed : WasmFunctionStatus → Option ℤ → Option ℤ → ℤ → Bool
drain_status_changed status delta window risky =
    not (equal_int32_ptr status.observed_battery_delta_percent delta)
    || not (equal_int32_ptr status.observed_battery_delta_window_seconds window)
    || not (eq_ℤ status.consecutive_risky_windows risky)

-- A field that already has its value is written again, which changes nothing; the branch without
-- battery deltas and setBatteryDrainStatus both come here.
unfoldable pub set_battery_drain_status :
    WasmFunction
    → Option ℤ
    → Option ℤ
    → ℤ
    → TelemetryUpdateResult
    → WasmFunction × TelemetryUpdateResult
set_battery_drain_status wf window delta risky result = (
  record wf { status = put_drain_status wf.status delta window risky },
  record result {
    status_changed = result.status_changed || drain_status_changed wf.status delta window risky;
  },
)

unfoldable pub update_battery_delta_status :
    BatteryDrainTracker
    → NamespacedName
    → WasmFunction
    → BatteryTelemetry
    → ℤ
    → Time
    → TelemetryUpdateResult
    → BatteryDrainTracker × (WasmFunction × TelemetryUpdateResult)
update_battery_delta_status states key wf telemetry battery now result =
    let step = observe_battery wf (lookup key states) (drain_report wf telemetry battery now) in
    if not (effective_battery_delta_enabled wf)
    then (delete key states, set_battery_drain_status wf none none (pos 0) result)
    else (
      insert key step.0 states,
      set_battery_drain_status wf (some (effective_battery_delta_window_seconds wf)) step.1
          step.0.risky_windows result,
    )
