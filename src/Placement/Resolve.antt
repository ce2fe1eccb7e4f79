-- ===== src/Placement/Resolve.antt =====
-- The shape of resolvePlacementWithEstimates: one rule for each way it returns
-- (edge/operator/internal/controller/wasmfunction_controller.go).
use sertay_thesis.Prelude.{◌≡◌, true, false, not, if-cases, not-true, not-false}
use sertay_thesis.Api.{WasmFunction}
use sertay_thesis.Deadline.{DeadlineEstimateSnapshot}
use sertay_thesis.Placement.{
  PlacementDecision, initial_decision, proposed_decision, admit, resolve_placement_with_estimates,
}

module _ (wf : WasmFunction) (e : DeadlineEstimateSnapshot) (P : PlacementDecision → Type 0) where
  -- Without a control topic the initial decision is returned, else the admitted proposal.
  pub resolve_cases :
      ((initial_decision wf).enabled ≡ false
        → P (record (initial_decision wf) { reason = "device control topic not configured" }))
      → ((initial_decision wf).enabled ≡ true → P (admit wf e (proposed_decision wf)))
      → P (resolve_placement_with_estimates wf e)
  unfolding resolve_placement_with_estimates
  resolve_cases p q =
      if-cases P (not (initial_decision wf).enabled) (λ h. p (not-true h)) (λ h. q (not-false h))
