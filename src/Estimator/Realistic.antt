-- ===== src/Estimator/Realistic.antt =====
-- The estimates for a function stay in the range in which admission is exact
-- (snapshotLocked and estimate of edge/operator/internal/controller/deadline_estimator.go).
use sertay_thesis.Prelude.{
  ℕ, zero, suc, ◌-◌, ◌<◌, ◌^◌, ◌≡◌, ◌≢◌, refl, true, false, Option, none, some, List, [], ◌∷◌,
  length, get_elem?, All, arith, not, if-cases, if◌then◌else◌,
}
use sertay_thesis.Prelude.Int.{ℤ, pos, pos_part, ltb_ℤ}
use sertay_thesis.Prelude.Text.{String, text_eq, text_eq_iff, trim_space}
use sertay_thesis.Prelude.Maps.{string_eq, lookup}
use sertay_thesis.Api.{WasmFunction}
use sertay_thesis.Deadline.{DeadlineEstimateSnapshot, placement_local, placement_edge}
use sertay_thesis.Deadline.Cost.{IsShort, IsRealistic}
use sertay_thesis.Estimator.Sample.{
  DeadlineTelemetrySample, DeadlineProfile, DeadlineTelemetryEstimator, deadline_estimator_key,
  deadline_estimator_key_prefix,
}
use sertay_thesis.Estimator.Percentile.{
  stage_values, insert_sorted, sort_values, percentile_value, percentile_index, or_else,
  estimate_deadline_percentile,
}
use sertay_thesis.Estimator.Snapshot.{
  estimate_of_profile, profile_estimate, samples_of, snapshot_of, snapshot_locked, estimate,
}

-- A reported time that is nothing, or below 2 ^ 28 ms; it may be negative.
abbrev pub IsBelow : Option ℤ → Type 0
IsBelow none = Unit
IsBelow (some v) = pos_part v < 2 ^ 28

pub record IsPlausible (s : DeadlineTelemetrySample) : Type 0 where
  pub local_execution : IsBelow s.local_execution_ms
  pub local_queue_delay : IsBelow s.local_queue_delay_ms
  pub resource_wake : IsBelow s.resource_wake_ms
  pub edge_execution : IsBelow s.edge_execution_ms
  pub network_round_trip : IsBelow s.network_round_trip_ms
  pub resource_collection : IsBelow s.resource_collection_ms
  pub output_application : IsBelow s.output_application_ms

-- All samples of all keys are plausible.
abbrev pub ArePlausible : List (String × List DeadlineTelemetrySample) → Type 0
ArePlausible [] = Unit
ArePlausible ((key, samples) ∷ entries) = All IsPlausible samples × ArePlausible entries

samples_of-ArePlausible :
    (key : String) (entries : List (String × List DeadlineTelemetrySample))
    → ArePlausible entries
    → All IsPlausible (samples_of (lookup key entries))
unfolding lookup
samples_of-ArePlausible key [] h = tt
samples_of-ArePlausible key ((k, samples) ∷ entries) h =
    if-cases (λ o. All IsPlausible (samples_of o)) (text_eq k key) (λ _. h.0)
      (λ _. samples_of-ArePlausible key entries h.1)

insert_sorted-IsShort :
    (v : ℤ) (ws : List ℤ) → IsShort v → All IsShort ws → All IsShort (insert_sorted v ws)
unfolding insert_sorted
insert_sorted-IsShort v [] h hs = (h, tt)
insert_sorted-IsShort v (w ∷ ws) h hs = ground (arith, insert_sorted-IsShort v ws)

sort_values-IsShort : (vs : List ℤ) → All IsShort vs → All IsShort (sort_values vs)
unfolding sort_values
sort_values-IsShort [] h = tt
sort_values-IsShort (v ∷ vs) h =
    insert_sorted-IsShort v (sort_values vs) h.0 (sort_values-IsShort vs h.1)

or_else-IsShort :
    (fallback : ℤ) (vs : List ℤ) (i : ℕ)
    → IsShort fallback
    → All IsShort vs
    → IsShort (or_else fallback (get_elem? vs i))
or_else-IsShort fallback [] i f h = f
or_else-IsShort fallback (v ∷ vs) zero f h = h.0
or_else-IsShort fallback (v ∷ vs) (suc i) f h = or_else-IsShort fallback vs i f h.1

module _ (value_for : DeadlineTelemetrySample → Option ℤ)
    (below : (s : DeadlineTelemetrySample) → IsPlausible s → IsBelow (value_for s)) where
  kept-IsShort :
      (o : Option ℤ) (vs : List ℤ)
      → IsBelow o
      → All IsShort vs
      → All IsShort (elim o [ none ↦ vs | some v ↦ if ltb_ℤ v (pos 0) then vs else v ∷ vs ])
  kept-IsShort none vs h hs = hs
  kept-IsShort (some v) vs h hs = ground arith

  stage_values-IsShort :
      (samples : List DeadlineTelemetrySample)
      → All IsPlausible samples
      → All IsShort (stage_values value_for samples)
  unfolding stage_values
  stage_values-IsShort [] h = tt
  stage_values-IsShort (s ∷ samples) h =
      kept-IsShort (value_for s) (stage_values value_for samples) (below s h.0)
        (stage_values-IsShort samples h.1)

  estimate_deadline_percentile-IsShort :
      (samples : List DeadlineTelemetrySample) (m p fallback : ℤ)
      → All IsPlausible samples
      → IsShort fallback
      → IsShort (estimate_deadline_percentile samples value_for m p fallback)
  unfolding estimate_deadline_percentile percentile_value
  estimate_deadline_percentile-IsShort samples m p fallback h f =
      let values = stage_values value_for samples in
      if-cases IsShort (ltb_ℤ (pos (length values)) m) (λ _. f)
        (λ _.
          or_else-IsShort fallback (sort_values values) (percentile_index p (length values) - 1) f
            (sort_values-IsShort values (stage_values-IsShort samples h)))

snapshot_of-IsRealistic :
    (wf : WasmFunction) (fallback : DeadlineEstimateSnapshot)
    (locals edges : List DeadlineTelemetrySample)
    → IsRealistic fallback
    → All IsPlausible locals
    → All IsPlausible edges
    → IsRealistic (snapshot_of wf fallback locals edges)
unfolding snapshot_of
snapshot_of-IsRealistic wf fallback locals edges f l e = record {
  local_execution =
      estimate_deadline_percentile-IsShort (λ s. s.local_execution_ms) (λ s h. h.local_execution)
        locals _ _ _ l f.local_execution;
  local_queue_delay =
      estimate_deadline_percentile-IsShort (λ s. s.local_queue_delay_ms)
        (λ s h. h.local_queue_delay) locals _ _ _ l f.local_queue_delay;
  resource_wake =
      estimate_deadline_percentile-IsShort (λ s. s.resource_wake_ms) (λ s h. h.resource_wake) locals
        _ _ _ l f.resource_wake;
  edge_execution =
      estimate_deadline_percentile-IsShort (λ s. s.edge_execution_ms) (λ s h. h.edge_execution)
        edges _ _ _ e f.edge_execution;
  network_round_trip =
      estimate_deadline_percentile-IsShort (λ s. s.network_round_trip_ms)
        (λ s h. h.network_round_trip) edges _ _ _ e f.network_round_trip;
  resource_collection =
      estimate_deadline_percentile-IsShort (λ s. s.resource_collection_ms)
        (λ s h. h.resource_collection) edges _ _ _ e f.resource_collection;
  output_application =
      estimate_deadline_percentile-IsShort (λ s. s.output_application_ms)
        (λ s h. h.output_application) edges _ _ _ e f.output_application;
}

snapshot_locked-IsRealistic :
    (e : DeadlineTelemetryEstimator) (wf : WasmFunction) (prefix : String)
    → (profile_estimate e wf).available ≡ true
    → IsRealistic (profile_estimate e wf)
    → ArePlausible e.samples
    → ((snapshot_locked e wf prefix).available ≡ true) × IsRealistic (snapshot_locked e wf prefix)
unfolding snapshot_locked snapshot_of
snapshot_locked-IsRealistic e wf prefix available real plausible =
    let local = deadline_estimator_key prefix placement_local in
    let edge = deadline_estimator_key prefix placement_edge in
    if-cases (λ s. (s.available ≡ true) × IsRealistic s) (not (profile_estimate e wf).available)
      (λ _. (available, real))
      (λ _. (
        refl,
        snapshot_of-IsRealistic wf (profile_estimate e wf) _ _ real
            (samples_of-ArePlausible local e.samples plausible)
            (samples_of-ArePlausible edge e.samples plausible),
      ))

-- Where the function has a profile whose own estimate is realistic, and no sample of the estimator
-- reports 2 ^ 28 ms or more, the estimate is available and realistic, whatever negative times were
-- reported and whatever the percentile is.
pub estimate-IsRealistic :
    (e : DeadlineTelemetryEstimator) (wf : WasmFunction) {profile : DeadlineProfile}
    → trim_space wf.spec.release.function_identity ≢ ""
    → lookup (trim_space wf.spec.release.function_identity) e.profiles ≡ some profile
    → IsRealistic (estimate_of_profile wf profile)
    → ArePlausible e.samples
    → ((estimate (some e) wf).available ≡ true) × IsRealistic (estimate (some e) wf)
unfolding estimate profile_estimate estimate_of_profile
estimate-IsRealistic e wf {profile} given found real plausible =
    let identity = trim_space wf.spec.release.function_identity in
    let prefix = deadline_estimator_key_prefix wf.namespace wf.name identity in
    let named : text_eq identity "" ≡ false = ground (arith, text_eq_iff identity "") in
    let same : profile_estimate e wf ≡ estimate_of_profile wf profile =
      rw (found, profile_estimate) refl in
    rw named (snapshot_locked-IsRealistic e wf prefix (rw same refl) (rw same real) plausible)
