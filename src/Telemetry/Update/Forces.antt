-- ===== src/Telemetry/Update/Forces.antt =====
-- From the reports of a device to the placement: a confirmed drain of the battery is what makes
-- automatic placement leave the device (updateObservedTelemetry of
-- edge/operator/internal/controller/mqtt_telemetry.go and resolvePlacementWithEstimates of
-- edge/operator/internal/controller/wasmfunction_controller.go).
use sertay_thesis.Prelude.{◌≡◌, refl, ap, ◌∙◌, true, false, Option, none, some, List, ◌∷◌, arith}
use sertay_thesis.Prelude.Int.{ℤ, ◌≤ℤ◌, ◌<ℤ◌, leb_ℤ}
use sertay_thesis.Prelude.Text.{text_eq_iff, equal_fold, to_lower}
use sertay_thesis.Prelude.Time.{Time}
use sertay_thesis.Prelude.Maps.{namespaced_name_eq, lookup}
use sertay_thesis.Api.{WasmFunction, key_of}
use sertay_thesis.Policy.{
  effective_battery_delta_enabled, effective_battery_delta_max_drain_percent,
  effective_battery_delta_window_seconds, effective_battery_delta_risky_windows,
}
use sertay_thesis.Deadline.{placement_local, placement_edge}
use sertay_thesis.Locality.{
  at_some, current_placement, battery_percent_for_placement, local_battery_delta_forces_edge,
  low_threshold_of, configured_high_threshold_of, high_threshold_of,
}
use sertay_thesis.Placement.{
  placement_auto, placement_mode, propose_auto, propose_for_mode, guardrail_holds, make_proposal,
  proposed_decision,
}
use sertay_thesis.Telemetry.{BatteryTelemetry, TelemetryUpdateResult}
use sertay_thesis.Telemetry.Drain.{
  DrainReport, drain_report, applicable, latest_telemetry_mode, risky_after,
  update_battery_delta_status, set_battery_drain_status, put_drain_status,
}
use sertay_thesis.Telemetry.Drain.Spec.{
  drain_state, reported_drain, risky_run, spec_state, IsHistory,
}
use sertay_thesis.Telemetry.Drain.Refines.{drain_refines_history}
use sertay_thesis.Telemetry.Update.{Bridge, observe_status, observe_telemetry}

-- The status shows a confirmed drain of a battery between the thresholds.
record IsDraining (wf : WasmFunction) (battery delta : ℤ) : Type 0 where
  enabled : effective_battery_delta_enabled wf ≡ true
  auto : placement_mode wf ≡ placement_auto
  local : current_placement wf ≡ placement_local
  mode : wf.status.observed_mode ≡ placement_local
  percent : wf.status.observed_battery_percent ≡ some battery
  low : low_threshold_of wf <ℤ battery
  high : battery <ℤ configured_high_threshold_of wf
  drain : wf.status.observed_battery_delta_percent ≡ some delta
  drained : effective_battery_delta_max_drain_percent wf ≤ℤ delta
  confirmed : effective_battery_delta_risky_windows wf ≤ℤ wf.status.consecutive_risky_windows

below_high :
    (wf : WasmFunction) (battery delta : ℤ)
    → IsDraining wf battery delta
    → leb_ℤ (high_threshold_of wf) battery ≡ false
unfolding high_threshold_of
below_high wf battery delta h = ground (arith, h.low, h.high)

forces_lem :
    (wf : WasmFunction) (battery delta : ℤ)
    → IsDraining wf battery delta
    → local_battery_delta_forces_edge wf (high_threshold_of wf) ≡ true
unfolding local_battery_delta_forces_edge
forces_lem wf battery delta h =
    let high = high_threshold_of wf in
    let limit = effective_battery_delta_max_drain_percent wf in
    let below = ap (λ o. at_some o (λ b. leb_ℤ high b)) h.percent ∙ below_high wf battery delta h in
    let fell : at_some wf.status.observed_battery_delta_percent (λ d. leb_ℤ limit d) ≡ true =
      ap (λ o. at_some o (λ d. leb_ℤ limit d)) h.drain ∙ ground (arith, h.drained) in
    ground (
      arith,
      below,
      fell,
      h.enabled,
      h.confirmed,
      (text_eq_iff wf.status.observed_mode placement_local).1 h.mode,
    )

drain_proposal :
    (wf : WasmFunction) (battery delta : ℤ)
    → IsDraining wf battery delta
    → ((proposed_decision wf).proposal ≡ placement_edge)
      × ((proposed_decision wf).proposal_source ≡ "BatteryDrain")
unfolding proposed_decision make_proposal guardrail_holds propose_for_mode propose_auto
    battery_percent_for_placement
drain_proposal wf battery delta h =
    let forces = forces_lem wf battery delta h in
    simp (h.local, h.percent, h.auto, forces) (ground (arith, h.low))

abbrev history : WasmFunction → BatteryTelemetry → ℤ → Time → List DrainReport → List DrainReport
history wf t battery now past = drain_report wf t battery now ∷ past

-- The status after a report, in terms of the history of reports.
abbrev pub observed_wf :
    WasmFunction → BatteryTelemetry → ℤ → Time → List DrainReport → WasmFunction
observed_wf wf t battery now past =
    let drained =
      put_drain_status wf.status (reported_drain wf (history wf t battery now past))
        (some (effective_battery_delta_window_seconds wf))
        (risky_run wf (history wf t battery now past)) in
    record wf { status = observe_status drained t battery now }

pub observe_telemetry-wf :
    (wf : WasmFunction) (b : Bridge) (t : BatteryTelemetry) (battery : ℤ) (now : Time)
    (result : TelemetryUpdateResult) (past : List DrainReport)
    → effective_battery_delta_enabled wf ≡ true
    → lookup (key_of wf) b.drain_tracker ≡ drain_state wf past
    → IsHistory (history wf t battery now past)
    → (observe_telemetry b (key_of wf) t battery wf now result).wf
      ≡ observed_wf wf t battery now past
unfolding observe_telemetry update_battery_delta_status set_battery_drain_status spec_state
observe_telemetry-wf wf b t battery now result past enabled known ordered =
    simp (enabled, known, drain_refines_history wf (drain_report wf t battery now) past ordered)
      refl

observed_mode_lem :
    (wf : WasmFunction) (t : BatteryTelemetry) (battery : ℤ) (now : Time) (past : List DrainReport)
    → (observed_wf wf t battery now past).status.observed_mode
      ≡ (drain_report wf t battery now).mode
unfolding observe_status put_drain_status drain_report latest_telemetry_mode
observed_mode_lem wf t battery now past = ground (arith, text_eq_iff wf.status.observed_mode t.mode)

risky_after_lem :
    (wf : WasmFunction) (risky : ℤ) (drain : Option ℤ)
    → effective_battery_delta_risky_windows wf ≤ℤ risky_after wf risky drain
    → (delta : ℤ) × ((drain ≡ some delta) × (effective_battery_delta_max_drain_percent wf ≤ℤ delta))
unfolding risky_after effective_battery_delta_risky_windows
risky_after_lem wf risky none h = absurd (ground (arith, h))
risky_after_lem wf risky (some delta) h = (delta, (refl, ground (arith, h)))

-- A confirmed count of risky windows rests on a fall of at least the limit.
risky_drain :
    (wf : WasmFunction) (r : DrainReport) (past : List DrainReport)
    → effective_battery_delta_risky_windows wf ≤ℤ risky_run wf (r ∷ past)
    → (delta : ℤ) × ((reported_drain wf (r ∷ past) ≡ some delta)
        × (effective_battery_delta_max_drain_percent wf ≤ℤ delta))
unfolding risky_run
risky_drain wf r past h = risky_after_lem wf _ (reported_drain wf (r ∷ past)) h

current_local :
    (wf : WasmFunction) (t : BatteryTelemetry) (battery : ℤ) (now : Time) (past : List DrainReport)
    → current_placement wf ≡ placement_local
    → (drain_report wf t battery now).mode ≡ placement_local
    → current_placement (observed_wf wf t battery now past) ≡ placement_local
unfolding current_placement observe_status put_drain_status equal_fold to_lower
current_local wf t battery now past here mode =
    rw (observed_mode_lem wf t battery now past ∙ mode) (ground (arith, here))

-- The new status shows what the history says.
observed-IsDraining :
    (wf : WasmFunction) (t : BatteryTelemetry) (battery delta : ℤ) (now : Time)
    (past : List DrainReport)
    → effective_battery_delta_enabled wf ≡ true
    → placement_mode wf ≡ placement_auto
    → current_placement wf ≡ placement_local
    → applicable wf (drain_report wf t battery now) ≡ true
    → reported_drain wf (drain_report wf t battery now ∷ past) ≡ some delta
    → effective_battery_delta_max_drain_percent wf ≤ℤ delta
    → effective_battery_delta_risky_windows wf
      ≤ℤ risky_run wf (drain_report wf t battery now ∷ past)
    → IsDraining (observed_wf wf t battery now past) battery delta
unfolding applicable observe_status put_drain_status drain_report latest_telemetry_mode
    low_threshold_of configured_high_threshold_of effective_battery_delta_enabled
    effective_battery_delta_max_drain_percent effective_battery_delta_risky_windows placement_mode
observed-IsDraining wf t battery delta now past enabled auto here fits drain drained risky =
    let mode = (drain_report wf t battery now).mode in
    let local : mode ≡ placement_local = ground (arith, fits, text_eq_iff mode placement_local) in
    record {
      enabled = enabled;
      auto = auto;
      local = current_local wf t battery now past here local;
      mode = observed_mode_lem wf t battery now past ∙ local;
      percent = refl;
      low = ground (arith, fits);
      high = ground (arith, fits);
      drain = drain;
      drained = drained;
      confirmed = risky;
    }

-- A device that runs the function reports, without a break, that its battery falls: as soon as
-- the history has as many risky windows in a row as are to confirm the drain, automatic placement
-- proposes to move the function to the edge. The battery lies between the thresholds, so the
-- low-battery guardrail is not what does it.
pub confirmed_drain_proposes_edge :
    (wf : WasmFunction) (b : Bridge) (t : BatteryTelemetry) (battery : ℤ) (now : Time)
    (result : TelemetryUpdateResult) (past : List DrainReport)
    → effective_battery_delta_enabled wf ≡ true
    → placement_mode wf ≡ placement_auto
    → current_placement wf ≡ placement_local
    → lookup (key_of wf) b.drain_tracker ≡ drain_state wf past
    → IsHistory (drain_report wf t battery now ∷ past)
    → applicable wf (drain_report wf t battery now) ≡ true
    → effective_battery_delta_risky_windows wf
      ≤ℤ risky_run wf (drain_report wf t battery now ∷ past)
    → ((proposed_decision (observe_telemetry b (key_of wf) t battery wf now result).wf).proposal
        ≡ placement_edge)
      × ((proposed_decision
            (observe_telemetry b (key_of wf) t battery wf now result).wf).proposal_source
          ≡ "BatteryDrain")
confirmed_drain_proposes_edge wf b t battery now result past enabled auto here known ordered fits
      risky =
    let (delta, (drain, drained)) = risky_drain wf (drain_report wf t battery now) past risky in
    rw (observe_telemetry-wf wf b t battery now result past enabled known ordered) (
      drain_proposal (observed_wf wf t battery now past) battery delta (
        observed-IsDraining wf t battery delta now past enabled auto here fits drain drained risky))
