-- ===== src/Telemetry/Drain/Spec.antt =====
-- What the drain tracker is to report, said of the whole history of reports of a resource, the
-- newest first, and without a state (updateBatteryDeltaStatus of
-- edge/operator/internal/controller/mqtt_telemetry.go).
use sertay_thesis.Prelude.{
  ◌-◌, ◌<◌, ◌≤◌, Bool, false, not, ◌&&◌, Option, none, some, List, [], ◌∷◌, snoc, ltb,
  if◌then◌else◌,
}
use sertay_thesis.Prelude.Int.{ℤ, pos}
use sertay_thesis.Prelude.Text.{text_eq}
use sertay_thesis.Api.{WasmFunction}
use sertay_thesis.Window.{kept_since}
use sertay_thesis.Telemetry.Drain.{
  BatteryDrainSample, BatteryDrainState, DrainReport, drain_window, applicable, window_drain,
  risky_after, observe_battery,
}

-- The state after a history, and the fall its newest report shows.
unfoldable pub drain_state : WasmFunction → List DrainReport → Option BatteryDrainState
drain_state wf [] = none
drain_state wf (r ∷ past) = some (observe_battery wf (drain_state wf past) r).0

-- `r` goes on with what `p` reported: the same source, function and mode, within the window.
unfoldable pub follows : WasmFunction → DrainReport → DrainReport → Bool
follows wf p r =
    text_eq p.source r.source
    && text_eq p.function r.function
    && text_eq p.mode r.mode
    && not (ltb (drain_window wf) (r.at - p.at))

unfoldable pub goes_on : WasmFunction → List DrainReport → DrainReport → Bool
goes_on wf [] r = false
goes_on wf (p ∷ past) r = follows wf p r

-- The samples of the reports that lead up to the newest without a break, all of them applicable.
unfoldable pub streak : WasmFunction → List DrainReport → List BatteryDrainSample
streak wf [] = []
streak wf (r ∷ past) =
    let before = streak wf past in
    let joined = if goes_on wf past r then before else [] in
    if applicable wf r then snoc joined (record { sampled_at = r.at; battery = r.battery }) else []

-- The streak, less what is older than the window.
unfoldable pub streak_window : WasmFunction → List DrainReport → List BatteryDrainSample
streak_window wf [] = []
streak_window wf (r ∷ past) =
    kept_since (λ s. s.sampled_at) (r.at - drain_window wf) (streak wf (r ∷ past))

unfoldable pub reported_drain : WasmFunction → List DrainReport → Option ℤ
reported_drain wf [] = none
reported_drain wf (r ∷ past) =
    if applicable wf r then window_drain (streak_window wf (r ∷ past)) r.battery else none

-- The number of risky windows in a row up to the newest report.
unfoldable pub risky_run : WasmFunction → List DrainReport → ℤ
risky_run wf [] = pos 0
risky_run wf (r ∷ past) =
    let before = risky_run wf past in
    risky_after wf (if goes_on wf past r then before else pos 0) (reported_drain wf (r ∷ past))

-- The state that goes with a history.
unfoldable pub spec_state : WasmFunction → DrainReport → List DrainReport → BatteryDrainState
spec_state wf r past = record {
  source = r.source;
  function = r.function;
  mode = r.mode;
  last_observed = r.at;
  samples = streak_window wf (r ∷ past);
  risky_windows = risky_run wf (r ∷ past);
}

-- The times of a history, none of them the zero time, do not go back.
abbrev pub IsHistory : List DrainReport → Type 0
IsHistory [] = Unit
IsHistory (r ∷ []) = 0 < r.at
IsHistory (r ∷ p ∷ past) = (p.at ≤ r.at) × IsHistory (p ∷ past)
