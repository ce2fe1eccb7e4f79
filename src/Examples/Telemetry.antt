-- ===== src/Examples/Telemetry.antt =====
-- The telemetry theorems at a device that reports a falling battery.
use sertay_thesis.Prelude.{
  ◌≡◌, ◌*◌, refl, ap, sym, true, false, not, none, some, List, [], ◌∷◌, arith,
}
use sertay_thesis.Prelude.Int.{ℤ, pos, add32, sub32}
use sertay_thesis.Prelude.Text.{text_eq_iff, to_lower, trim_space}
use sertay_thesis.Prelude.Time.{Time, second}
use sertay_thesis.Prelude.Maps.{namespaced_name_eq, lookup}
use sertay_thesis.Api.{WasmFunction, key_of}
use sertay_thesis.Deadline.{placement_edge}
use sertay_thesis.Locality.{current_placement, normalize_retained_placement}
use sertay_thesis.Placement.{proposed_decision, placement_mode}
use sertay_thesis.Policy.{
  effective_battery_delta_enabled, effective_battery_delta_window_seconds,
  effective_battery_delta_max_drain_percent, effective_battery_delta_risky_windows,
}
use sertay_thesis.Release.{
  normalize_artifact_digest, all_hex, is_hex_digit, device_release_active, release_delivery_state,
}
use sertay_thesis.Window.{kept_since}
use sertay_thesis.Telemetry.{BatteryTelemetry, no_update}
use sertay_thesis.Telemetry.Drain.{
  DrainReport, BatteryDrainState, applicable, window_drain, drain_of, risky_after, drain_report,
  latest_telemetry_mode, observe_battery,
}
use sertay_thesis.Telemetry.Drain.Spec.{
  drain_state, follows, goes_on, streak, streak_window, reported_drain, risky_run, spec_state,
}
use sertay_thesis.Telemetry.Drain.Refines.{drain_refines_history}
use sertay_thesis.Telemetry.Update.{Bridge, observe_telemetry, update_observed_telemetry}
use sertay_thesis.Telemetry.Update.Forces.{observed_wf, confirmed_drain_proposes_edge}
use sertay_thesis.Telemetry.Update.Release.{
  IsActivation, IsSilent, activation_report_lem, silent_report_lem,
}
use sertay_thesis.Telemetry.Update.Retry.{attempts, reports, conflicts_count_again}
use sertay_thesis.Examples.Data.{digest, placement, spec, local_at, reader}

-- Two falls of 3 percent within a minute confirm a drain.
abbrev pub draining : WasmFunction
draining = record reader {
  spec = record spec {
    placement = record placement {
      battery_delta = record {
        enabled = some true;
        window_seconds = pos 60;
        max_drain_percent = pos 3;
        risky_windows_to_offload = pos 2;
      };
    };
  };
  status = record (local_at (pos 46)) { observed_mode = "local" };
}

abbrev pub report : BatteryTelemetry
report = record {
  battery_percent = some (pos 42);
  mode = "local";
  source = "adc";
  voltage_mv = none;
  artifact_digest = "";
  release_generation = none;
  staged_artifact_digest = none;
  staged_generation = none;
  admission_paused = none;
  function = "";
  execution_ms = none;
  queue_delay_ms = none;
  resource_wake_ms = none;
  resource_collection_ms = none;
  network_round_trip_ms = none;
  edge_execution_ms = none;
  output_application_ms = none;
}

abbrev pub report_at : ℤ → Time → DrainReport
report_at battery at = record {
  source = "adc";
  function = "dht-reader";
  mode = "local";
  battery = battery;
  at = at;
}

abbrev earlier : List DrainReport
earlier = report_at (pos 46) (30 * second) ∷ report_at (pos 50) (10 * second) ∷ []

abbrev pub state : BatteryDrainState
state =
    spec_state draining (report_at (pos 46) (30 * second)) (report_at (pos 50) (10 * second) ∷ [])

abbrev pub bridge : Bridge
bridge = record {
  deadline_estimator = record { samples = []; profiles = [] };
  drain_tracker = (key_of draining, state) ∷ [];
}

known : lookup (key_of draining) bridge.drain_tracker ≡ drain_state draining earlier
unfolding lookup drain_state
known =
    ap (λ step. some step.0)
      (sym (
        drain_refines_history draining (report_at (pos 46) (30 * second))
          (report_at (pos 50) (10 * second) ∷ []) (omega arith, omega arith)))

abbrev after_report : WasmFunction
after_report =
    (observe_telemetry bridge (key_of draining) report (pos 42) draining (40 * second) no_update).wf

drain_refines_history_example :
    observe_battery draining (drain_state draining earlier) (report_at (pos 42) (40 * second)) ≡ (
      spec_state draining (report_at (pos 42) (40 * second)) earlier,
      reported_drain draining (report_at (pos 42) (40 * second) ∷ earlier),
    )
drain_refines_history_example =
    drain_refines_history draining (report_at (pos 42) (40 * second)) earlier
      (omega arith, (omega arith, omega arith))

confirmed_drain_proposes_edge_example :
    ((proposed_decision after_report).proposal ≡ placement_edge)
    × ((proposed_decision after_report).proposal_source ≡ "BatteryDrain")
unfolding effective_battery_delta_enabled placement_mode to_lower current_placement
    normalize_retained_placement drain_report latest_telemetry_mode trim_space applicable risky_run
    risky_after reported_drain window_drain drain_of streak_window streak goes_on follows kept_since
    effective_battery_delta_window_seconds effective_battery_delta_max_drain_percent
    effective_battery_delta_risky_windows sub32 add32
confirmed_drain_proposes_edge_example =
    confirmed_drain_proposes_edge draining bridge report (pos 42) (40 * second) no_update earlier
      refl refl refl known (omega arith, (omega arith, omega arith)) refl (omega arith)

-- The patch of the first attempt meets a conflict, so that one report counts twice.
conflicts_count_again_example :
    (update_observed_telemetry
      (attempts draining (40 * second ∷ []) (41 * second))
      bridge
      (key_of draining)
      report
      (pos 42)
      no_update).stored
    ≡ some (
        observed_wf draining report
          (pos 42)
          (41 * second)
          (reports draining report (pos 42) (40 * second ∷ []) earlier))
unfolding effective_battery_delta_enabled drain_report latest_telemetry_mode trim_space
conflicts_count_again_example =
    conflicts_count_again draining bridge report (pos 42) no_update (40 * second ∷ []) (41 * second)
      earlier refl known (omega arith, (omega arith, (omega arith, omega arith)))

-- A first window of 4 percent, and the same window counted again: two risky windows from one report.
abbrev first : List DrainReport
first = report_at (pos 50) (10 * second) ∷ []

counted_once : risky_run draining (report_at (pos 46) (30 * second) ∷ first) ≡ pos 1
unfolding risky_run risky_after reported_drain window_drain drain_of applicable streak_window streak
    goes_on follows kept_since effective_battery_delta_window_seconds
    effective_battery_delta_max_drain_percent add32 sub32
counted_once = refl

counted_twice :
    risky_run draining (report_at (pos 46) (31 * second) ∷ report_at (pos 46) (30 * second) ∷ first)
    ≡ pos 2
unfolding risky_run risky_after reported_drain window_drain drain_of applicable streak_window streak
    goes_on follows kept_since effective_battery_delta_window_seconds
    effective_battery_delta_max_drain_percent add32 sub32
counted_twice = refl

-- The device runs the declared release.
abbrev activation : BatteryTelemetry
activation = record report {
  artifact_digest = digest;
  release_generation = some (pos 5);
  function = "dht-reader";
}

activation-IsActivation : IsActivation draining activation
activation-IsActivation = record {
  generation = refl;
  function = refl;
  digest = refl;
  function_given = ground (arith, text_eq_iff "dht-reader" "");
  digest_given = ground (arith, text_eq_iff digest "");
}

activation_report_lem_example :
    (release_delivery_state
        (observe_telemetry bridge
          (key_of draining)
          activation
          (pos 42)
          draining
          (40 * second)
          no_update).wf
        (normalize_artifact_digest digest)
      ≡ "Active")
    × ((observe_telemetry bridge
          (key_of draining)
          activation
          (pos 42)
          draining
          (40 * second)
          no_update).result.activated_release_acknowledged
        ≡ not (device_release_active draining (normalize_artifact_digest digest)))
unfolding normalize_artifact_digest all_hex is_hex_digit to_lower trim_space
activation_report_lem_example =
    activation_report_lem draining bridge (key_of draining) activation (pos 42) (40 * second)
      no_update (ground (arith, text_eq_iff digest "")) (omega arith) activation-IsActivation

report-IsSilent : IsSilent report
report-IsSilent = record {
  generation = refl;
  staged_generation = refl;
  staged_digest = refl;
  function = refl;
  digest = refl;
}

silent_report_lem_example :
    (release_delivery_state
        (observe_telemetry bridge
          (key_of draining)
          report
          (pos 42)
          draining
          (40 * second)
          no_update).wf
        (normalize_artifact_digest digest)
      ≡ release_delivery_state draining (normalize_artifact_digest digest))
    × ((observe_telemetry bridge
          (key_of draining)
          report
          (pos 42)
          draining
          (40 * second)
          no_update).result.staged_release_acknowledged
        ≡ false)
    × ((observe_telemetry bridge
          (key_of draining)
          report
          (pos 42)
          draining
          (40 * second)
          no_update).result.activated_release_acknowledged
        ≡ false)
silent_report_lem_example =
    silent_report_lem draining bridge (key_of draining) report (pos 42) (40 * second) no_update
      report-IsSilent
