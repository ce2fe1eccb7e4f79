-- ===== src/Telemetry/Update/Retry.antt =====
-- What a conflict of the status patch does: the closure that RetryOnConflict runs again has already
-- counted the report (updateObservedTelemetry of
-- edge/operator/internal/controller/mqtt_telemetry.go).
use sertay_thesis.Prelude.{◌≡◌, refl, ap, true, some, List, [], ◌∷◌}
use sertay_thesis.Prelude.Int.{ℤ}
use sertay_thesis.Prelude.Time.{Time}
use sertay_thesis.Prelude.Maps.{NamespacedName, namespaced_name_eq, lookup, lookup-insert, beq_refl}
use sertay_thesis.Api.{WasmFunction, key_of}
use sertay_thesis.Policy.{effective_battery_delta_enabled}
use sertay_thesis.Telemetry.{BatteryTelemetry, TelemetryUpdateResult}
use sertay_thesis.Telemetry.Drain.{
  DrainReport, drain_report, observe_battery, update_battery_delta_status,
}
use sertay_thesis.Telemetry.Drain.Spec.{drain_state, IsHistory}
use sertay_thesis.Telemetry.Update.Forces.{observed_wf, observe_telemetry-wf}
use sertay_thesis.Telemetry.Update.{
  Bridge, Attempt, found, conflict, patched, observe_telemetry, update_observed_telemetry,
}

-- Attempts that all find `wf`, at the times `ts` and then `last`; only the last patch is taken.
abbrev pub attempts : WasmFunction → List Time → Time → List Attempt
attempts wf [] last = record { fetch = found wf; patch = patched; now = last } ∷ []
attempts wf (now ∷ ts) last =
    record { fetch = found wf; patch = conflict; now = now } ∷ attempts wf ts last

-- The reports of the times, the last first, before the reports of `past`.
abbrev pub reports :
    WasmFunction → BatteryTelemetry → ℤ → List Time → List DrainReport → List DrainReport
reports wf t battery [] past = past
reports wf t battery (now ∷ ts) past =
    reports wf t battery ts (drain_report wf t battery now ∷ past)

observed_tracker :
    (wf : WasmFunction) (b : Bridge) (key : NamespacedName) (t : BatteryTelemetry) (battery : ℤ)
    (now : Time) (result : TelemetryUpdateResult) (past : List DrainReport)
    → effective_battery_delta_enabled wf ≡ true
    → lookup key b.drain_tracker ≡ drain_state wf past
    → lookup key (observe_telemetry b key t battery wf now result).bridge.drain_tracker
      ≡ drain_state wf (drain_report wf t battery now ∷ past)
unfolding observe_telemetry update_battery_delta_status drain_state
observed_tracker wf b key t battery now result past enabled known =
    let step = observe_battery wf (drain_state wf past) (drain_report wf t battery now) in
    simp (enabled, known) (rw (lookup-insert key key step.0 b.drain_tracker, beq_refl key) refl)

-- Where the attempts find the same resource and all patches but the last meet a conflict, the
-- resource that is stored is what separate reports at the times of all attempts would leave: one
-- report of a device counts once more in its fall and its risky windows for every conflict.
pub conflicts_count_again :
    (wf : WasmFunction) (b : Bridge) (t : BatteryTelemetry) (battery : ℤ)
    (result : TelemetryUpdateResult) (ts : List Time) (last : Time) (past : List DrainReport)
    → effective_battery_delta_enabled wf ≡ true
    → lookup (key_of wf) b.drain_tracker ≡ drain_state wf past
    → IsHistory (drain_report wf t battery last ∷ reports wf t battery ts past)
    → (update_observed_telemetry (attempts wf ts last) b (key_of wf) t battery result).stored
      ≡ some (observed_wf wf t battery last (reports wf t battery ts past))
unfolding update_observed_telemetry
conflicts_count_again wf b t battery result [] last past enabled known ordered =
    ap some (observe_telemetry-wf wf b t battery last result past enabled known ordered)
conflicts_count_again wf b t battery result (now ∷ ts) last past enabled known ordered =
    let o = observe_telemetry b (key_of wf) t battery wf now result in
    conflicts_count_again wf o.bridge t battery o.result ts last
      (drain_report wf t battery now ∷ past) enabled
      (observed_tracker wf b (key_of wf) t battery now result past enabled known) ordered
