-- ===== src/Reconcile/Battery.antt =====
-- The battery level that a run writes to the status (updateStatus and copyBatteryPercent of
-- edge/operator/internal/controller/wasmfunction_controller.go).
use sertay_thesis.Prelude.{◌≡◌, refl, ◌∙◌, Bool, some, arith}
use sertay_thesis.Prelude.Int.{ℤ}
use sertay_thesis.Api.{WasmFunction}
use sertay_thesis.Api.Spec.{WasmFunctionSpec}
use sertay_thesis.Deadline.{DeadlineEstimateSnapshot}
use sertay_thesis.Locality.{battery_percent_for_placement}
use sertay_thesis.Placement.{
  PlacementDecision, admit, initial_decision, proposed_decision, resolve_placement_with_estimates,
}
use sertay_thesis.Placement.Resolve.{resolve_cases}
use sertay_thesis.Artifact.Reconcile.{ArtifactDecision}
use sertay_thesis.Readiness.{note_reason, apply_destination_readiness}
use sertay_thesis.Control.Exec.{Control}
use sertay_thesis.Estimator.Snapshot.{estimate}
use sertay_thesis.Reconcile.Ensure.{present}
use sertay_thesis.Reconcile.Run.{World, with_digests, decide, reconcile}
use sertay_thesis.Reconcile.Outcomes.{
  artifact_of, decision_of, noted_of, runtime_of, reconcile-HasDecision,
}

admit-battery :
    (wf : WasmFunction) (e : DeadlineEstimateSnapshot) (d : PlacementDecision)
    → (admit wf e d).battery_percent ≡ d.battery_percent
unfolding admit
admit-battery wf e d = ground arith

resolve-battery :
    (wf : WasmFunction) (e : DeadlineEstimateSnapshot)
    → (resolve_placement_with_estimates wf e).battery_percent ≡ battery_percent_for_placement wf
unfolding initial_decision proposed_decision
resolve-battery wf e =
    resolve_cases wf e (λ d. d.battery_percent ≡ battery_percent_for_placement wf) (λ _. refl)
      (λ _. admit-battery wf e (proposed_decision wf))

readiness-battery :
    (wf : WasmFunction) (d : PlacementDecision) (a : ArtifactDecision) (runtime : Bool)
    → (apply_destination_readiness wf d a runtime).1.battery_percent ≡ d.battery_percent
unfolding apply_destination_readiness note_reason
readiness-battery wf d a runtime = ground arith

decision-battery :
    (w : World) (wf : WasmFunction)
    → (decision_of w wf).battery_percent ≡ battery_percent_for_placement wf
unfolding decide with_digests battery_percent_for_placement
decision-battery w wf =
    readiness-battery (noted_of w wf) _ (artifact_of w wf).0 (runtime_of w)
    ∙ resolve-battery (noted_of w wf) (estimate w.estimator (noted_of w wf))

-- Once a run has stored a status, the battery that later placements read is the one that this run
-- used, whatever the spec of the resource is changed to: a battery percentage that came from the
-- spec, as a fallback for missing telemetry, is stored as the observed one, and a new fallback in
-- the spec is read no more.
pub fallback_battery_sticks :
    (w : World) (c : Control) (wf result : WasmFunction) (spec : WasmFunctionSpec) {b : ℤ}
    → w.fetched ≡ present wf
    → (reconcile w c).stored ≡ some result
    → battery_percent_for_placement wf ≡ some b
    → battery_percent_for_placement (record result { spec = spec }) ≡ some b
unfolding battery_percent_for_placement
fallback_battery_sticks w c wf result spec {b} found is_stored percent =
    let observed =
      (reconcile-HasDecision w c wf result found is_stored).1 ∙ decision-battery w wf ∙ percent in
    rw observed refl
