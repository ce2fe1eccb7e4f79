-- ===== src/Locality.antt =====
-- The current placement, resource locality, and what the policies of the battery read
-- (edge/operator/internal/controller/wasmfunction_controller.go).
use sertay_thesis.Prelude.{
  Bool, false, not, ◌||◌, ◌&&◌, Option, none, some, any, if◌then◌else◌, is_some,
}
use sertay_thesis.Prelude.Int.{ℤ, pos, leb_ℤ, ltb_ℤ, eq_ℤ}
use sertay_thesis.Prelude.Text.{String, text_eq, trim_space, equal_fold}
use sertay_thesis.Api.{WasmFunction}
use sertay_thesis.Api.Spec.{ResourceContractSpec}
use sertay_thesis.Policy.{
  default_low_battery_threshold, default_high_battery_threshold, effective_battery_delta_enabled,
  effective_battery_delta_max_drain_percent, effective_battery_delta_risky_windows,
}
use sertay_thesis.Deadline.{placement_local, placement_edge, placement_hybrid}

unfoldable pub has_device_local_resources : ResourceContractSpec → Bool
has_device_local_resources contract =
    any (λ i. equal_fold (trim_space i.locality) "device") contract.inputs
    || any (λ o. equal_fold (trim_space o.locality) "device") contract.outputs

unfoldable pub apply_resource_locality : WasmFunction → String → String
apply_resource_locality wf placement =
    if text_eq placement placement_edge
      && has_device_local_resources wf.spec.release.resource_contract
    then placement_hybrid
    else placement

unfoldable pub runtime_mode_for_placement : String → String
runtime_mode_for_placement placement =
    if text_eq placement placement_hybrid then placement_edge else placement

unfoldable pub normalize_retained_placement : String → String
normalize_retained_placement placement =
    if text_eq placement placement_local
      || text_eq placement placement_edge
      || text_eq placement placement_hybrid
    then placement
    else placement_local

unfoldable pub current_placement : WasmFunction → String
current_placement wf =
    let retained = normalize_retained_placement wf.status.desired_placement in
    if not (text_eq wf.status.desired_placement "")
    then (if text_eq retained placement_hybrid
          && not (has_device_local_resources wf.spec.release.resource_contract)
        then placement_edge
        else retained)
    else if equal_fold wf.status.observed_mode placement_edge
    then apply_resource_locality wf placement_edge
    else placement_local

unfoldable pub battery_percent_for_placement : WasmFunction → Option ℤ
battery_percent_for_placement wf =
    if is_some wf.status.observed_battery_percent
    then wf.status.observed_battery_percent
    else wf.spec.placement.battery_percent

-- `test` at the value of a pointer, false at nil.
abbrev pub at_some : Option ℤ → (ℤ → Bool) → Bool
at_some none test = false
at_some (some v) test = test v

unfoldable pub local_battery_delta_forces_edge : WasmFunction → ℤ → Bool
local_battery_delta_forces_edge wf high =
    effective_battery_delta_enabled wf
    && text_eq wf.status.observed_mode placement_local
    && not (at_some wf.status.observed_battery_percent (λ b. leb_ℤ high b))
    && at_some wf.status.observed_battery_delta_percent
        (λ d. leb_ℤ (effective_battery_delta_max_drain_percent wf) d)
    && leb_ℤ (effective_battery_delta_risky_windows wf) wf.status.consecutive_risky_windows

-- A threshold of 0 counts as omitted.
unfoldable pub low_threshold_of : WasmFunction → ℤ
low_threshold_of wf =
    let low = wf.spec.placement.low_battery_threshold in
    if eq_ℤ low (pos 0) then default_low_battery_threshold else low

unfoldable pub configured_high_threshold_of : WasmFunction → ℤ
configured_high_threshold_of wf =
    let high = wf.spec.placement.high_battery_threshold in
    if eq_ℤ high (pos 0) then default_high_battery_threshold else high

unfoldable pub high_threshold_of : WasmFunction → ℤ
high_threshold_of wf =
    let low = low_threshold_of wf in
    let high = configured_high_threshold_of wf in if ltb_ℤ high low then low else high
