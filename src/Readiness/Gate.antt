-- ===== src/Readiness/Gate.antt =====
-- A placement changes only to a destination that is ready and that admission accepted
-- (resolvePlacementWithEstimates and applyDestinationReadiness of
-- edge/operator/internal/controller/wasmfunction_controller.go).
use sertay_thesis.Prelude.{◌≡◌, ◌≢◌, ◌⊎◌, inl, inr, refl, sym, ◌∙◌, Bool, true, not, ◌||◌, arith}
use sertay_thesis.Prelude.Text.{String}
use sertay_thesis.Api.{WasmFunction}
use sertay_thesis.Deadline.{DeadlineEstimateSnapshot}
use sertay_thesis.Placement.{
  PlacementDecision, current_placement, initial_decision, proposed_decision, admit,
  resolve_placement_with_estimates,
}
use sertay_thesis.Placement.Resolve.{resolve_cases}
use sertay_thesis.Placement.Battery.{retained_or_admitted}
use sertay_thesis.Release.{device_release_ready}
use sertay_thesis.Artifact.Reconcile.{ArtifactDecision, host_ready}
use sertay_thesis.Readiness.{is_remote, note_reason, destination_ready, apply_destination_readiness}

-- What is required of a destination.
pub record IsReady (wf : WasmFunction) (a : ArtifactDecision) (runtime : Bool) (p : String)
    : Type 0 where
  pub device : device_release_ready wf a.desired_digest ≡ true
  pub host : (not (is_remote p) || host_ready wf a) ≡ true
  pub runtime_available : (not (is_remote p) || runtime) ≡ true

IsReady-parts :
    (wf : WasmFunction) (d : PlacementDecision) (a : ArtifactDecision) (runtime : Bool)
    → destination_ready wf d a runtime ≡ true
    → IsReady wf a runtime d.candidate
unfolding destination_ready
IsReady-parts wf d a runtime h = record {
  device = ground arith;
  host = ground arith;
  runtime_available = ground arith;
}

-- A decision that is open to the gate: it keeps the current placement, or chose its candidate.
IsOpen : PlacementDecision → Type 0
IsOpen d =
    (d.desired ≡ d.current)
    ⊎ ((d.desired ≡ d.candidate) × (d.transition ≡ true) × (d.deadline.accepted ≡ true))

gate :
    (wf : WasmFunction) (d : PlacementDecision) (a : ArtifactDecision) (runtime : Bool)
    → IsOpen d
    → (apply_destination_readiness wf d a runtime).1.desired ≢ d.current
    → IsReady wf a runtime (apply_destination_readiness wf d a runtime).1.desired
      × ((apply_destination_readiness wf d a runtime).1.deadline.accepted ≡ true)
unfolding apply_destination_readiness note_reason IsOpen
gate wf d a runtime chosen moved = ground (arith, IsReady-parts wf d a runtime)

admit-current :
    (wf : WasmFunction) (e : DeadlineEstimateSnapshot) (d : PlacementDecision)
    → (admit wf e d).current ≡ d.current
unfolding admit
admit-current wf e d = ground arith

resolve-current :
    (wf : WasmFunction) (e : DeadlineEstimateSnapshot)
    → (resolve_placement_with_estimates wf e).current ≡ current_placement wf
unfolding initial_decision proposed_decision
resolve-current wf e =
    resolve_cases wf e (λ d. d.current ≡ current_placement wf) (λ _. refl)
      (λ _. admit-current wf e (proposed_decision wf))

resolve-IsOpen :
    (wf : WasmFunction) (e : DeadlineEstimateSnapshot)
    → IsOpen (resolve_placement_with_estimates wf e)
unfolding IsOpen
resolve-IsOpen wf e = elim (retained_or_admitted wf e) [
  | inl p ↦ inl (p ∙ sym (resolve-current wf e))
  | inr h ↦ inr (h.0 ∙ sym h.1, h.2, h.3)
]

-- The decision after both gates.
abbrev pub gated :
    WasmFunction → DeadlineEstimateSnapshot → ArtifactDecision → Bool → PlacementDecision
gated wf e a runtime =
    (apply_destination_readiness wf (resolve_placement_with_estimates wf e) a runtime).1

-- Where the decision that passed both gates differs from the current placement, deadline admission
-- accepted it, the device holds the desired release, and, for edge and hybrid placement, the host
-- holds the release and an edge runtime is available.
pub gated-IsReady :
    (wf : WasmFunction) (e : DeadlineEstimateSnapshot) (a : ArtifactDecision) (runtime : Bool)
    → (gated wf e a runtime).desired ≢ current_placement wf
    → IsReady wf a runtime (gated wf e a runtime).desired
      × ((gated wf e a runtime).deadline.accepted ≡ true)
gated-IsReady wf e a runtime moved =
    gate wf (resolve_placement_with_estimates wf e) a runtime (resolve-IsOpen wf e)
      (λ p. moved (p ∙ resolve-current wf e))
