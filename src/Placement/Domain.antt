-- ===== src/Placement/Domain.antt =====
-- Which placements the resolution can choose
-- (resolvePlacementWithEstimates of edge/operator/internal/controller/wasmfunction_controller.go).
use sertay_thesis.Prelude.{◌≡◌, ◌≢◌, ◌⊎◌, inl, inr, true, Option, some, none, arith}
use sertay_thesis.Prelude.Int.{ℤ}
use sertay_thesis.Prelude.Text.{String, text_eq_iff}
use sertay_thesis.Api.{WasmFunction}
use sertay_thesis.Deadline.{
  DeadlineEstimateSnapshot, placement_local, placement_edge, placement_hybrid,
}
use sertay_thesis.Deadline.Cost.{IsPlacement}
use sertay_thesis.Placement.Resolve.{resolve_cases}
use sertay_thesis.Placement.{
  PlacementDecision, has_device_local_resources, apply_resource_locality,
  normalize_retained_placement, current_placement, propose_auto, propose_for_mode, make_proposal,
  initial_decision, admit, resolve_placement_with_estimates, proposed_decision,
  battery_percent_for_placement, low_threshold_of, high_threshold_of,
}

-- Hybrid placement needs a resource of the device in the contract of the release.
abbrev pub FitsContract : WasmFunction → String → Type 0
FitsContract wf p =
    p ≡ placement_hybrid → has_device_local_resources wf.spec.release.resource_contract ≡ true

pub placements_apart :
    ◌≢◌ {A = String} placement_local placement_edge
    × ◌≢◌ {A = String} placement_local placement_hybrid
    × ◌≢◌ {A = String} placement_edge placement_hybrid
placements_apart = (
  ground (arith, text_eq_iff placement_local placement_edge),
  ground (arith, text_eq_iff placement_local placement_hybrid),
  ground (arith, text_eq_iff placement_edge placement_hybrid),
)

module _ (wf : WasmFunction) where
  pub current-IsPlacement : IsPlacement (current_placement wf)
  unfolding current_placement normalize_retained_placement apply_resource_locality
  current-IsPlacement =
      let d = wf.status.desired_placement in
      ground (
        arith,
        text_eq_iff d "",
        text_eq_iff d placement_local,
        text_eq_iff d placement_edge,
        text_eq_iff d placement_hybrid,
      )

  pub current-FitsContract : FitsContract wf (current_placement wf)
  unfolding current_placement normalize_retained_placement apply_resource_locality
  current-FitsContract h =
      let d = wf.status.desired_placement in
      ground (
        arith,
        text_eq_iff d "",
        text_eq_iff d placement_local,
        text_eq_iff d placement_edge,
        text_eq_iff d placement_hybrid,
        placements_apart,
      )

  pub locality-IsPlacement :
      (p : String)
      → (p ≡ placement_local) ⊎ (p ≡ placement_edge)
      → IsPlacement (apply_resource_locality wf p)
  unfolding apply_resource_locality
  locality-IsPlacement p h = ground (arith, text_eq_iff p placement_edge)

  pub locality-FitsContract :
      (p : String)
      → (p ≡ placement_local) ⊎ (p ≡ placement_edge)
      → FitsContract wf (apply_resource_locality wf p)
  unfolding apply_resource_locality
  locality-FitsContract p h e = ground (arith, text_eq_iff p placement_edge, placements_apart)

  -- An edge proposal for a contract with resources of the device becomes hybrid.
  pub locality-ne-edge :
      (p : String)
      → has_device_local_resources wf.spec.release.resource_contract ≡ true
      → apply_resource_locality wf p ≢ placement_edge
  unfolding apply_resource_locality
  locality-ne-edge p h e = ground (arith, text_eq_iff p placement_edge, placements_apart)

-- What can be proposed: nothing, local or edge.
abbrev pub IsProposal : String → Type 0
IsProposal p = (p ≡ "") ⊎ (p ≡ placement_local) ⊎ (p ≡ placement_edge)

auto-IsProposal :
    (wf : WasmFunction) (c : String) (b : Option ℤ) (high : ℤ)
    → IsProposal (propose_auto wf c b high).proposal
unfolding propose_auto
auto-IsProposal wf c none high = ground arith
auto-IsProposal wf c (some b) high = ground arith

pub proposal-IsProposal :
    (wf : WasmFunction) (c : String) (b : Option ℤ) (low high : ℤ)
    → IsProposal (make_proposal wf c b low high).proposal
unfolding make_proposal propose_for_mode
proposal-IsProposal wf c b low high = ground (arith, auto-IsProposal wf c b high)

module _ (wf : WasmFunction) (e : DeadlineEstimateSnapshot) (d : PlacementDecision) where
  admit-IsPlacement :
      IsProposal d.proposal
      → IsPlacement d.current
      → IsPlacement d.desired
      → IsPlacement (admit wf e d).desired
  unfolding admit
  admit-IsPlacement p c h =
      ground (arith, text_eq_iff d.proposal "", locality-IsPlacement wf d.proposal)

  admit-FitsContract :
      IsProposal d.proposal
      → FitsContract wf d.current
      → FitsContract wf d.desired
      → FitsContract wf (admit wf e d).desired
  unfolding admit
  admit-FitsContract p c h q =
      ground (arith, text_eq_iff d.proposal "", locality-FitsContract wf d.proposal)

module _ (wf : WasmFunction) (e : DeadlineEstimateSnapshot) where
  proposed-IsProposal : IsProposal (proposed_decision wf).proposal
  unfolding proposed_decision
  proposed-IsProposal =
      proposal-IsProposal wf (current_placement wf) (battery_percent_for_placement wf)
        (low_threshold_of wf) (high_threshold_of wf)

  -- The placement that is chosen is local, edge or hybrid, whatever the status and the spec hold.
  pub desired-IsPlacement : IsPlacement (resolve_placement_with_estimates wf e).desired
  unfolding initial_decision proposed_decision
  desired-IsPlacement =
      resolve_cases wf e (λ d. IsPlacement d.desired) (λ _. current-IsPlacement wf)
        (λ _.
          admit-IsPlacement wf e (proposed_decision wf) proposed-IsProposal (current-IsPlacement wf)
            (current-IsPlacement wf))

  pub desired-FitsContract : FitsContract wf (resolve_placement_with_estimates wf e).desired
  unfolding initial_decision proposed_decision
  desired-FitsContract =
      resolve_cases wf e (λ d. FitsContract wf d.desired) (λ _. current-FitsContract wf)
        (λ _.
          admit-FitsContract wf e (proposed_decision wf) proposed-IsProposal
            (current-FitsContract wf) (current-FitsContract wf))

-- Hybrid placement is chosen only for a contract with resources of the device.
pub hybrid_needs_device :
    (wf : WasmFunction) (e : DeadlineEstimateSnapshot)
    → (resolve_placement_with_estimates wf e).desired ≡ placement_hybrid
    → has_device_local_resources wf.spec.release.resource_contract ≡ true
hybrid_needs_device wf e h = desired-FitsContract wf e h

-- The resource after the operator has written the decision into its status.
unfoldable pub adopt : WasmFunction → String → WasmFunction
adopt wf placement = record wf { status = record wf.status { desired_placement = placement } }

-- A placement that fits the contract is read back as it was written.
pub current-adopt :
    (wf : WasmFunction) (p : String)
    → IsPlacement p
    → FitsContract wf p
    → current_placement (adopt wf p) ≡ p
unfolding current_placement normalize_retained_placement adopt
current-adopt wf p (inl q) f = rw q
current-adopt wf p (inr (inl q)) f = rw q
current-adopt wf p (inr (inr q)) f = rw q (rw (f q))
