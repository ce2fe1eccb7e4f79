-- ===== src/Placement/Battery.antt =====
-- The battery guardrails: offloading at a low battery, hysteresis, and what happens when the two
-- thresholds meet (edge/operator/internal/controller/wasmfunction_controller.go).
use sertay_thesis.Prelude.{◌≡◌, ◌≢◌, ◌⊎◌, inl, inr, refl, true, some, arith}
use sertay_thesis.Prelude.Int.{ℤ, ◌≤ℤ◌}
use sertay_thesis.Prelude.Text.{text_eq_iff}
use sertay_thesis.Api.{WasmFunction}
use sertay_thesis.Policy.{effective_battery_threshold_enabled}
use sertay_thesis.Deadline.{DeadlineEstimateSnapshot, placement_local, placement_edge}
use sertay_thesis.Deadline.Admission.{hard_accepted}
use sertay_thesis.Placement.{
  PlacementDecision, apply_resource_locality, current_placement, battery_percent_for_placement,
  low_threshold_of, guardrail_holds, make_proposal, initial_decision, proposed_decision, admit,
  resolve_placement_with_estimates,
}
use sertay_thesis.Placement.Resolve.{resolve_cases}
use sertay_thesis.Placement.Domain.{locality-IsPlacement}

admit-moves :
    (wf : WasmFunction) (e : DeadlineEstimateSnapshot) (d : PlacementDecision)
    → d.desired ≡ d.current
    → ((admit wf e d).desired ≡ d.current)
      ⊎ (((admit wf e d).desired ≡ apply_resource_locality wf d.proposal)
          × ((admit wf e d).candidate ≡ apply_resource_locality wf d.proposal)
          × ((admit wf e d).transition ≡ true)
          × ((admit wf e d).deadline.accepted ≡ true)
          × (d.proposal ≢ ""))
unfolding admit
admit-moves wf e d h = ground (
  arith,
  text_eq_iff d.proposal "",
  text_eq_iff (apply_resource_locality wf d.proposal) d.current,
)

-- The decision keeps the current placement, or there is a proposal, the candidate that locality
-- makes of it differs from the current placement, deadline admission accepted it, and it is chosen.
pub retained_or_admitted :
    (wf : WasmFunction) (e : DeadlineEstimateSnapshot)
    → let d = resolve_placement_with_estimates wf e in
      (d.desired ≡ current_placement wf)
      ⊎ ((d.desired ≡ apply_resource_locality wf (proposed_decision wf).proposal)
          × (d.candidate ≡ apply_resource_locality wf (proposed_decision wf).proposal)
          × (d.transition ≡ true)
          × (d.deadline.accepted ≡ true)
          × ((proposed_decision wf).proposal ≢ ""))
unfolding initial_decision proposed_decision
retained_or_admitted wf e =
    resolve_cases wf e
      (λ d.
        (d.desired ≡ current_placement wf)
        ⊎ ((d.desired ≡ apply_resource_locality wf (proposed_decision wf).proposal)
            × (d.candidate ≡ apply_resource_locality wf (proposed_decision wf).proposal)
            × (d.transition ≡ true)
            × (d.deadline.accepted ≡ true)
            × ((proposed_decision wf).proposal ≢ "")))
      (λ _. inl refl) (λ _. admit-moves wf e (proposed_decision wf) refl)

-- The hypotheses of the low-battery guardrail.
pub record IsLow (wf : WasmFunction) (b : ℤ) : Type 0 where
  pub enabled : effective_battery_threshold_enabled wf ≡ true
  pub local : current_placement wf ≡ placement_local
  pub battery : battery_percent_for_placement wf ≡ some b
  pub low : b ≤ℤ low_threshold_of wf

proposed_of_IsLow :
    (wf : WasmFunction) {b : ℤ}
    → IsLow wf b
    → ((proposed_decision wf).proposal ≡ placement_edge) × ((proposed_decision wf).hard ≡ true)
unfolding proposed_decision make_proposal guardrail_holds
proposed_of_IsLow wf l = rw (l.local, l.battery) (ground arith)

admit_hard :
    (wf : WasmFunction) (e : DeadlineEstimateSnapshot) (d : PlacementDecision)
    → d.proposal ≡ placement_edge
    → d.hard ≡ true
    → (admit wf e d).desired ≡ apply_resource_locality wf placement_edge
unfolding admit
admit_hard wf e d p h =
    rw (p, h)
      (rw
        (hard_accepted wf (apply_resource_locality wf placement_edge) e
          (locality-IsPlacement wf placement_edge (inr refl)))
        (ground arith))

-- With a control topic and the battery threshold enabled, a function that runs locally with its
-- battery at or below the low threshold is moved to the edge, or to hybrid placement if the
-- contract has resources of the device, whatever the mode, the deadline and the estimates are.
pub low_battery_offloads :
    (wf : WasmFunction) (e : DeadlineEstimateSnapshot) {b : ℤ}
    → wf.spec.device.control_topic ≢ ""
    → IsLow wf b
    → (resolve_placement_with_estimates wf e).desired ≡ apply_resource_locality wf placement_edge
unfolding initial_decision
low_battery_offloads wf e topic l =
    let (p, h) = proposed_of_IsLow wf l in
    resolve_cases wf e (λ d. d.desired ≡ apply_resource_locality wf placement_edge)
      (λ off. ground (arith, text_eq_iff wf.spec.device.control_topic ""))
      (λ _. admit_hard wf e (proposed_decision wf) p h)
