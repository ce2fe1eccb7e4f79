-- ===== src/Telemetry/Drain/Refines.antt =====
-- The drain tracker, which keeps one pruned window, reports what the whole history says
-- (updateBatteryDeltaStatus of edge/operator/internal/controller/mqtt_telemetry.go).
use sertay_thesis.Prelude.{
  ◌-◌, ◌<◌, ◌≤◌, ◌≡◌, refl, ap, some, List, [], ◌∷◌, arith, if-cases, Bool-cases, inl, inr,
  if◌then◌else◌,
}
use sertay_thesis.Prelude.Int.{pos}
use sertay_thesis.Prelude.Text.{text_eq_iff}
use sertay_thesis.Api.{WasmFunction}
use sertay_thesis.Window.{kept_since, kept_since-kept_since, kept_since-snoc, kept_since_nil}
use sertay_thesis.Telemetry.Drain.{
  BatteryDrainSample, BatteryDrainState, DrainReport, drain_window, applicable, risky_after,
  observe_battery, add_report, new_drain_state, drain_state_for, same_streak,
}
use sertay_thesis.Telemetry.Drain.Spec.{
  drain_state, follows, goes_on, streak, streak_window, reported_drain, risky_run, spec_state,
  IsHistory,
}

-- Adding a report to a state that agrees with the history on what is in the window.
add_report_lem :
    (wf : WasmFunction) (base : BatteryDrainState) (r : DrainReport) (past : List DrainReport)
    → base.source ≡ r.source
    → base.function ≡ r.function
    → base.mode ≡ r.mode
    → kept_since (λ s. s.sampled_at) (r.at - drain_window wf) base.samples
      ≡ kept_since
          (λ s. s.sampled_at)
          (r.at - drain_window wf)
          (if goes_on wf past r then streak wf past else [])
    → base.risky_windows ≡ (if goes_on wf past r then risky_run wf past else pos 0)
    → add_report wf base r ≡ (spec_state wf r past, reported_drain wf (r ∷ past))
unfolding add_report spec_state reported_drain streak_window streak risky_run risky_after
add_report_lem wf base r past s f m same risky =
    let joined = if goes_on wf past r then streak wf past else [] in
    elim (Bool-cases (applicable wf r)) [
      | inl fits ↦
          rw
            (
              fits,
              kept_since-snoc (λ s. s.sampled_at) (r.at - drain_window wf) joined
                  (record { sampled_at = r.at; battery = r.battery }) (omega arith),
              same,
              risky,
              s,
              f,
              m,
            )
            refl
      | inr other ↦
          rw
            (
              other,
              s,
              f,
              m,
              kept_since_nil (λ (s : BatteryDrainSample). s.sampled_at) (r.at - drain_window wf),
            )
            refl
    ]

-- The state that goes with a history is kept where the new report follows.
drain_state_for_lem :
    (wf : WasmFunction) (r p : DrainReport) (past : List DrainReport)
    → 0 < p.at
    → drain_state_for wf (some (spec_state wf p past)) r
      ≡ (if follows wf p r then spec_state wf p past else new_drain_state r)
unfolding drain_state_for same_streak spec_state follows
drain_state_for_lem wf r p past h = ground arith

first_positive : (p : DrainReport) (past : List DrainReport) → IsHistory (p ∷ past) → 0 < p.at
first_positive p [] h = h
first_positive p (q ∷ past) h = omega (arith, first_positive q past h.1, h.0)

-- A report that follows finds in its window what the whole streak has there.
add_to_history :
    (wf : WasmFunction) (r p : DrainReport) (past : List DrainReport)
    → p.at ≤ r.at
    → add_report wf (if follows wf p r then spec_state wf p past else new_drain_state r) r
      ≡ (spec_state wf r (p ∷ past), reported_drain wf (r ∷ p ∷ past))
unfolding follows goes_on spec_state streak_window kept_since
add_to_history wf r p past later =
    if-cases
      (λ base.
        add_report wf base r ≡ (spec_state wf r (p ∷ past), reported_drain wf (r ∷ p ∷ past)))
      (follows wf p r)
      (λ yes.
        add_report_lem wf (spec_state wf p past) r (p ∷ past)
          (ground (arith, text_eq_iff p.source r.source))
          (ground (arith, text_eq_iff p.function r.function))
          (ground (arith, text_eq_iff p.mode r.mode))
          (rw yes (
            kept_since-kept_since (λ s. s.sampled_at) (p.at - drain_window wf)
              (r.at - drain_window wf) (streak wf (p ∷ past)) (omega arith)))
          (rw yes refl))
      (λ no.
        add_report_lem wf (new_drain_state r) r (p ∷ past) refl refl refl (rw no refl) (rw no refl))

-- Where the times of a history do not go back, the state that the tracker keeps after its newest
-- report holds exactly the samples of the unbroken streak of applicable reports that lie in the
-- window, its count of risky windows is the one the whole history gives, and the fall that it
-- reports is the fall over that window: dropping old samples and forgetting streaks loses nothing.
pub drain_refines_history :
    (wf : WasmFunction) (r : DrainReport) (past : List DrainReport)
    → IsHistory (r ∷ past)
    → observe_battery wf (drain_state wf past) r
      ≡ (spec_state wf r past, reported_drain wf (r ∷ past))
unfolding observe_battery drain_state goes_on kept_since drain_state_for
drain_refines_history wf r [] h =
    add_report_lem wf (new_drain_state r) r [] refl refl refl refl refl
drain_refines_history wf r (p ∷ past) h =
    rw
      (
        ap (λ step. step.0) (drain_refines_history wf p past h.1),
        drain_state_for_lem wf r p past (first_positive p past h.1),
      )
      (add_to_history wf r p past h.0)
