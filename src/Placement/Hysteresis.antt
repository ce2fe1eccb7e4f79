-- ===== src/Placement/Hysteresis.antt =====
-- The band between the two battery thresholds, and its absence
-- (edge/operator/internal/controller/wasmfunction_controller.go).
use sertay_thesis.Prelude.{◌≡◌, ◌≢◌, ◌⊎◌, inl, inr, refl, ◌∙◌, false, some, arith, if-cases}
use sertay_thesis.Prelude.Int.{ℤ, ◌≤ℤ◌, ◌<ℤ◌}
use sertay_thesis.Prelude.Text.{String, text_eq, text_eq_iff}
use sertay_thesis.Api.{WasmFunction}
use sertay_thesis.Policy.{effective_battery_threshold_enabled, effective_deadline_enabled}
use sertay_thesis.Deadline.{
  DeadlineEstimateSnapshot, placement_local, placement_edge, evaluate_deadline_admission,
  initial_evaluation,
}
use sertay_thesis.Placement.{
  PlacementDecision, placement_auto, has_device_local_resources, apply_resource_locality,
  current_placement, battery_percent_for_placement, local_battery_delta_forces_edge,
  low_threshold_of, high_threshold_of, configured_high_threshold_of, guardrail_holds,
  placement_mode, propose_auto, propose_for_mode, make_proposal, initial_decision,
  proposed_decision, admit, resolve_placement_with_estimates,
}
use sertay_thesis.Placement.Resolve.{resolve_cases}
use sertay_thesis.Placement.Domain.{
  placements_apart, locality-IsPlacement, locality-FitsContract, adopt, current-adopt,
}
use sertay_thesis.Placement.Battery.{IsLow, low_battery_offloads}

admit-nothing :
    (wf : WasmFunction) (e : DeadlineEstimateSnapshot) (d : PlacementDecision)
    → d.proposal ≡ ""
    → (admit wf e d).desired ≡ d.desired
unfolding admit
admit-nothing wf e d p = rw p

admit-same :
    (wf : WasmFunction) (e : DeadlineEstimateSnapshot) (d : PlacementDecision)
    → d.proposal ≡ placement_edge
    → d.current ≡ apply_resource_locality wf placement_edge
    → (admit wf e d).desired ≡ apply_resource_locality wf placement_edge
unfolding admit
admit-same wf e d p c = rw p (
    rw c (
      ground (
        arith,
        text_eq_iff (apply_resource_locality wf placement_edge)
            (apply_resource_locality wf placement_edge),
      )))

-- In auto mode, with the battery strictly between the thresholds and no confirmed drain, the
-- current placement is kept.
pub between_retains :
    (wf : WasmFunction) (e : DeadlineEstimateSnapshot) {b : ℤ}
    → placement_mode wf ≡ placement_auto
    → battery_percent_for_placement wf ≡ some b
    → low_threshold_of wf <ℤ b
    → b <ℤ high_threshold_of wf
    → local_battery_delta_forces_edge wf (high_threshold_of wf) ≡ false
    → (resolve_placement_with_estimates wf e).desired ≡ current_placement wf
unfolding initial_decision proposed_decision make_proposal propose_for_mode propose_auto
    guardrail_holds
between_retains wf e {b} m s l h f =
    resolve_cases wf e (λ d. d.desired ≡ current_placement wf) (λ _. refl)
      (λ _. admit-nothing wf e (proposed_decision wf) (rw (s, m) (ground (arith))))

abbrev pub remote_of : WasmFunction → String
remote_of wf = apply_resource_locality wf placement_edge

remote-ne-local : (wf : WasmFunction) → text_eq (remote_of wf) placement_local ≡ false
unfolding apply_resource_locality
remote-ne-local wf =
    if-cases (λ p. text_eq p placement_local ≡ false)
      (has_device_local_resources wf.spec.release.resource_contract) (λ _. refl) (λ _. refl)

module _ (wf : WasmFunction) (p : String) where
  low-adopt : low_threshold_of (adopt wf p) ≡ low_threshold_of wf
  unfolding low_threshold_of adopt
  low-adopt = refl

  high-adopt : high_threshold_of (adopt wf p) ≡ high_threshold_of wf
  unfolding high_threshold_of configured_high_threshold_of low_threshold_of adopt
  high-adopt = refl

  battery-adopt : battery_percent_for_placement (adopt wf p) ≡ battery_percent_for_placement wf
  unfolding battery_percent_for_placement adopt
  battery-adopt = refl

  mode-adopt : placement_mode (adopt wf p) ≡ placement_mode wf
  unfolding placement_mode adopt
  mode-adopt = refl

  threshold-adopt :
      effective_battery_threshold_enabled (adopt wf p) ≡ effective_battery_threshold_enabled wf
  unfolding effective_battery_threshold_enabled adopt
  threshold-adopt = refl

  locality-adopt : remote_of (adopt wf p) ≡ remote_of wf
  unfolding apply_resource_locality adopt
  locality-adopt = refl

current-offloaded : (wf : WasmFunction) → current_placement (adopt wf (remote_of wf)) ≡ remote_of wf
current-offloaded wf =
    current-adopt wf (remote_of wf) (locality-IsPlacement wf placement_edge (inr refl))
      (locality-FitsContract wf placement_edge (inr refl))

-- What is proposed for a function that was offloaded, in auto mode.
proposal-offloaded :
    (wf : WasmFunction) {b : ℤ}
    → IsLow wf b
    → placement_mode wf ≡ placement_auto
    → b <ℤ high_threshold_of wf
    → let d = proposed_decision (adopt wf (remote_of wf)) in
      (d.proposal ≡ "") ⊎ (d.proposal ≡ placement_edge)
unfolding proposed_decision make_proposal propose_for_mode propose_auto guardrail_holds
proposal-offloaded wf l m h =
    rw
      (
        current-offloaded wf,
        battery-adopt wf (remote_of wf),
        low-adopt wf (remote_of wf),
        high-adopt wf (remote_of wf),
        mode-adopt wf (remote_of wf),
        threshold-adopt wf (remote_of wf),
      )
      (rw (l.battery, m) (rw (remote-ne-local wf) (ground arith)))

settled :
    (wf : WasmFunction) (e : DeadlineEstimateSnapshot)
    → let d = proposed_decision (adopt wf (remote_of wf)) in
      (d.proposal ≡ "") ⊎ (d.proposal ≡ placement_edge)
      → (resolve_placement_with_estimates (adopt wf (remote_of wf)) e).desired ≡ remote_of wf
unfolding initial_decision proposed_decision apply_resource_locality adopt
settled wf e h =
    let wf' = adopt wf (remote_of wf) in
    resolve_cases wf' e (λ d. d.desired ≡ remote_of wf) (λ _. current-offloaded wf)
      (λ _. elim h [
        | inl p ↦ admit-nothing wf' e (proposed_decision wf') p ∙ current-offloaded wf
        | inr p ↦ admit-same wf' e (proposed_decision wf') p (current-offloaded wf)
      ])

-- With a control topic, the battery threshold enabled and the low threshold below the high one,
-- in auto mode, a local function with its battery at or below the low threshold is moved off the
-- device, and stays where it is put at the same telemetry: adopting the decision is a fixed
-- point.
pub offload_settles :
    (wf : WasmFunction) (e : DeadlineEstimateSnapshot) {b : ℤ}
    → wf.spec.device.control_topic ≢ ""
    → IsLow wf b
    → placement_mode wf ≡ placement_auto
    → low_threshold_of wf <ℤ high_threshold_of wf
    → let desired = (resolve_placement_with_estimates wf e).desired in
      (desired ≢ placement_local)
      × ((resolve_placement_with_estimates (adopt wf desired) e).desired ≡ desired)
offload_settles wf e topic l m h = rw (low_battery_offloads wf e topic l) (
  (λ q. ground (arith, text_eq_iff (remote_of wf) placement_local, remote-ne-local wf)),
  settled wf e (proposal-offloaded wf l m (omega (arith, l.low))),
)

-- The same function once the thresholds meet: the local placement is proposed at the same battery.
proposal-returns :
    (wf : WasmFunction) {b : ℤ}
    → IsLow wf b
    → placement_mode wf ≡ placement_auto
    → high_threshold_of wf ≤ℤ b
    → let d = proposed_decision (adopt wf (remote_of wf)) in
      (d.proposal ≡ placement_local) × (d.hard ≡ false)
unfolding proposed_decision make_proposal propose_for_mode propose_auto guardrail_holds
proposal-returns wf l m h =
    rw
      (
        current-offloaded wf,
        battery-adopt wf (remote_of wf),
        low-adopt wf (remote_of wf),
        high-adopt wf (remote_of wf),
        mode-adopt wf (remote_of wf),
        threshold-adopt wf (remote_of wf),
      )
      (rw (l.battery, m)
        (rw (remote-ne-local wf) (ground (arith, l.enabled, threshold-adopt wf (remote_of wf)))))

admit-local :
    (wf : WasmFunction) (e : DeadlineEstimateSnapshot) (d : PlacementDecision)
    → effective_deadline_enabled wf ≡ false
    → d.proposal ≡ placement_local
    → (admit wf e d).desired ≡ placement_local
unfolding admit apply_resource_locality evaluate_deadline_admission initial_evaluation
admit-local wf e d off p = rw p (rw off (ground arith))

returns :
    (wf : WasmFunction) (e : DeadlineEstimateSnapshot) {b : ℤ}
    → wf.spec.device.control_topic ≢ ""
    → IsLow wf b
    → placement_mode wf ≡ placement_auto
    → high_threshold_of wf ≤ℤ b
    → effective_deadline_enabled wf ≡ false
    → (resolve_placement_with_estimates (adopt wf (remote_of wf)) e).desired ≡ placement_local
unfolding initial_decision adopt effective_deadline_enabled
returns wf e topic l m h off =
    let wf' = adopt wf (remote_of wf) in
    resolve_cases wf' e (λ d. d.desired ≡ placement_local)
      (λ disabled. ground (arith, text_eq_iff wf.spec.device.control_topic ""))
      (λ _. admit-local wf' e (proposed_decision wf') off (proposal-returns wf l m h).0)

adopt-adopt : (wf : WasmFunction) (p q : String) → adopt (adopt wf p) q ≡ adopt wf q
unfolding adopt
adopt-adopt wf p q = refl

IsLow-adopt : (wf : WasmFunction) {b : ℤ} → IsLow wf b → IsLow (adopt wf placement_local) b
IsLow-adopt wf l = record {
  enabled = rw (threshold-adopt wf placement_local) l.enabled;
  local = current-adopt wf placement_local (inl refl) (λ q. absurd (placements_apart.1 q));
  battery = rw (battery-adopt wf placement_local) l.battery;
  low = rw (low-adopt wf placement_local) l.low;
}

-- Where the two thresholds meet at the reported battery, there is no hysteresis: with a control
-- topic, the battery threshold enabled and deadline admission off, in auto mode, the resolution
-- at the same telemetry moves a local function to the remote placement, moves that back to local,
-- and moves the local one to the remote placement again.
pub equal_thresholds_oscillate :
    (wf : WasmFunction) (e : DeadlineEstimateSnapshot) {b : ℤ}
    → wf.spec.device.control_topic ≢ ""
    → IsLow wf b
    → placement_mode wf ≡ placement_auto
    → high_threshold_of wf ≤ℤ b
    → effective_deadline_enabled wf ≡ false
    → let there = (resolve_placement_with_estimates wf e).desired in
      let back = (resolve_placement_with_estimates (adopt wf there) e).desired in
      (there ≢ placement_local)
      × (back ≡ placement_local)
      × ((resolve_placement_with_estimates (adopt (adopt wf there) back) e).desired ≡ there)
equal_thresholds_oscillate wf e topic l m h off = rw (low_battery_offloads wf e topic l) (
    rw (returns wf e topic l m h off) (
      (λ q. ground (arith, text_eq_iff (remote_of wf) placement_local, remote-ne-local wf)),
      refl,
      rw (adopt-adopt wf (remote_of wf) placement_local) (
          low_battery_offloads (adopt wf placement_local) e (unfold adopt in topic)
            (IsLow-adopt wf l)
          ∙ locality-adopt wf placement_local),
    ))
