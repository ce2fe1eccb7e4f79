-- ===== src/Telemetry/Drain/Percent.antt =====
-- The drain tracker holds percentages and reports percentages (updateBatteryDeltaStatus of
-- edge/operator/internal/controller/mqtt_telemetry.go).
use sertay_thesis.Prelude.{
  ◌≡◌, not, Option, none, some, List, [], ◌∷◌, snoc, arith, All, All-append, if-cases, ltb, length,
  ◌-◌,
}
use sertay_thesis.Prelude.Int.{ℤ, pos, ◌≤ℤ◌, ◌-ℤ◌, sub32, wrap32_of_Int32}
use sertay_thesis.Prelude.Time.{Time}
use sertay_thesis.Prelude.Maps.{NamespacedName, namespaced_name_eq, lookup, insert, delete}
use sertay_thesis.Api.{WasmFunction}
use sertay_thesis.Policy.{effective_battery_delta_enabled}
use sertay_thesis.Window.{kept_since, kept_since-All}
use sertay_thesis.Telemetry.{BatteryTelemetry, TelemetryUpdateResult}
use sertay_thesis.Telemetry.Drain.{
  BatteryDrainSample, BatteryDrainState, BatteryDrainTracker, DrainReport, drain_window,
  same_streak, drain_state_for, applicable, drain_of, window_drain, add_report, observe_battery,
  set_battery_drain_status, put_drain_status, drain_report, update_battery_delta_status,
}

pub record IsPercent (v : ℤ) : Type 0 where
  pub low : pos 0 ≤ℤ v
  pub high : v ≤ℤ pos 100

-- Nothing, or a percentage.
abbrev pub IsPercentOrNone : Option ℤ → Type 0
IsPercentOrNone none = Unit
IsPercentOrNone (some v) = IsPercent v

abbrev pub HoldsPercents : BatteryDrainState → Type 0
HoldsPercents state = All (λ (s : BatteryDrainSample). IsPercent s.battery) state.samples

abbrev pub AllHoldPercents : BatteryDrainTracker → Type 0
AllHoldPercents [] = Unit
AllHoldPercents ((key, state) ∷ states) = HoldsPercents state × AllHoldPercents states

abbrev MayHoldPercents : Option BatteryDrainState → Type 0
MayHoldPercents none = Unit
MayHoldPercents (some state) = HoldsPercents state

sub32_of_percents : (a b : ℤ) → IsPercent a → IsPercent b → sub32 a b ≡ a -ℤ b
unfolding sub32 ◌-ℤ◌
sub32_of_percents a b p q = wrap32_of_Int32 (a -ℤ b) (ground (arith, p.low, p.high, q.low, q.high))

drain_of-IsPercentOrNone :
    (samples : List BatteryDrainSample) (battery : ℤ)
    → All (λ s. IsPercent s.battery) samples
    → IsPercent battery
    → IsPercentOrNone (drain_of samples battery)
unfolding drain_of ◌-ℤ◌
drain_of-IsPercentOrNone [] battery h q = tt
drain_of-IsPercentOrNone (oldest ∷ rest) battery h q =
    rw (sub32_of_percents oldest.battery battery h.0 q) (record {
      low = ground (arith, h.0.low, h.0.high, q.low, q.high);
      high = ground (arith, h.0.low, h.0.high, q.low, q.high);
    })

add_report-HoldsPercents :
    (wf : WasmFunction) (state : BatteryDrainState) (r : DrainReport)
    → HoldsPercents state
    → IsPercent r.battery
    → HoldsPercents (add_report wf state r).0 × IsPercentOrNone (add_report wf state r).1
unfolding add_report window_drain
add_report-HoldsPercents wf state r h q =
    let kept =
      kept_since (λ (s : BatteryDrainSample). s.sampled_at) (r.at - drain_window wf)
        state.samples in
    let samples = snoc kept (record { sampled_at = r.at; battery = r.battery }) in
    let clean : All (λ (s : BatteryDrainSample). IsPercent s.battery) samples =
      All-append (λ s. IsPercent s.battery) kept _
        (kept_since-All (λ s. s.sampled_at) (λ s. IsPercent s.battery) (r.at - drain_window wf)
          state.samples h)
        (q, tt) in
    if-cases
      (λ (step : BatteryDrainState × Option ℤ). HoldsPercents step.0 × IsPercentOrNone step.1)
      (applicable wf r)
      (λ _. (
        clean,
        if-cases IsPercentOrNone (ltb (length samples) 2) (λ _. tt)
            (λ _. drain_of-IsPercentOrNone samples r.battery clean q),
      ))
      (λ _. (tt, tt))

drain_state_for-HoldsPercents :
    (wf : WasmFunction) (before : Option BatteryDrainState) (r : DrainReport)
    → MayHoldPercents before
    → HoldsPercents (drain_state_for wf before r)
unfolding drain_state_for
drain_state_for-HoldsPercents wf none r h = tt
drain_state_for-HoldsPercents wf (some state) r h =
    if-cases HoldsPercents (same_streak wf state r) (λ _. h) (λ _. tt)

lookup-MayHoldPercents :
    (key : NamespacedName) (states : BatteryDrainTracker)
    → AllHoldPercents states
    → MayHoldPercents (lookup key states)
unfolding lookup
lookup-MayHoldPercents key [] h = tt
lookup-MayHoldPercents key ((j, state) ∷ states) h =
    if-cases MayHoldPercents (namespaced_name_eq.beq j key) (λ _. h.0)
      (λ _. lookup-MayHoldPercents key states h.1)

insert-AllHoldPercents :
    (key : NamespacedName) (state : BatteryDrainState) (states : BatteryDrainTracker)
    → HoldsPercents state
    → AllHoldPercents states
    → AllHoldPercents (insert key state states)
unfolding insert
insert-AllHoldPercents key state [] s h = (s, tt)
insert-AllHoldPercents key state ((j, other) ∷ states) s h =
    if-cases AllHoldPercents (namespaced_name_eq.beq j key) (λ _. (s, h.1))
      (λ _. (h.0, insert-AllHoldPercents key state states s h.1))

delete-AllHoldPercents :
    (key : NamespacedName) (states : BatteryDrainTracker)
    → AllHoldPercents states
    → AllHoldPercents (delete key states)
unfolding delete
delete-AllHoldPercents key [] h = tt
delete-AllHoldPercents key ((j, state) ∷ states) h =
    if-cases AllHoldPercents (namespaced_name_eq.beq j key)
      (λ _. delete-AllHoldPercents key states h.1)
      (λ _. (h.0, delete-AllHoldPercents key states h.1))

-- A report of a percentage keeps the tracker at percentages, and the fall it writes is one.
pub update_battery_delta_status-AllHoldPercents :
    (states : BatteryDrainTracker) (key : NamespacedName) (wf : WasmFunction) (t : BatteryTelemetry)
    (battery : ℤ) (now : Time) (result : TelemetryUpdateResult)
    → AllHoldPercents states
    → IsPercent battery
    → AllHoldPercents (update_battery_delta_status states key wf t battery now result).0
      × IsPercentOrNone
          (update_battery_delta_status states key wf t battery now
            result).1.0.status.observed_battery_delta_percent
unfolding update_battery_delta_status observe_battery set_battery_drain_status put_drain_status
    drain_report
update_battery_delta_status-AllHoldPercents states key wf t battery now result h q =
    let r = drain_report wf t battery now in
    let before = lookup key states in
    let step =
      add_report-HoldsPercents wf (drain_state_for wf before r) r
        (drain_state_for-HoldsPercents wf before r (lookup-MayHoldPercents key states h)) q in
    if-cases
      (λ (u : BatteryDrainTracker × (WasmFunction × TelemetryUpdateResult)).
        AllHoldPercents u.0 × IsPercentOrNone u.1.0.status.observed_battery_delta_percent)
      (not (effective_battery_delta_enabled wf)) (λ _. (delete-AllHoldPercents key states h, tt))
      (λ _. (insert-AllHoldPercents key _ states step.0 h, step.1))
