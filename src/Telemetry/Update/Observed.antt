-- ===== src/Telemetry/Update/Observed.antt =====
-- The percentages that telemetry writes to a status (applyBatteryTelemetry of
-- edge/operator/internal/controller/mqtt_telemetry.go).
use sertay_thesis.Prelude.{
  not, Option, none, some, is_some, List, [], ◌∷◌, arith, All, if-cases, if◌then◌else◌,
}
use sertay_thesis.Prelude.Int.{ℤ}
use sertay_thesis.Prelude.Text.{String, text_eq}
use sertay_thesis.Prelude.Time.{Time}
use sertay_thesis.Prelude.Maps.{NamespacedName}
use sertay_thesis.Api.{WasmFunction, key_of}
use sertay_thesis.Telemetry.{
  BatteryTelemetry, TelemetryUpdateResult, no_update, telemetry_topic_for_device, clamp_battery,
  normalize_telemetry,
}
use sertay_thesis.Telemetry.Drain.Percent.{
  IsPercent, IsPercentOrNone, AllHoldPercents, update_battery_delta_status-AllHoldPercents,
}
use sertay_thesis.Telemetry.Update.{
  Bridge, observe_status, observe_telemetry, not_found, fetch_failed, found, patched, conflict,
  patch_failed, Attempt, update_observed_telemetry, written_of, update_matching,
  apply_battery_telemetry,
}

-- A percentage that is there.
abbrev pub IsGivenPercent : Option ℤ → Type 0
IsGivenPercent none = ⊥
IsGivenPercent (some v) = IsPercent v

-- A stored status has a battery percentage, and the fall of the battery is one where it has one.
pub record IsObserved (wf : WasmFunction) : Type 0 where
  pub battery : IsGivenPercent wf.status.observed_battery_percent
  pub drain : IsPercentOrNone wf.status.observed_battery_delta_percent

abbrev pub TracksPercents : Bridge → Type 0
TracksPercents b = AllHoldPercents b.drain_tracker

abbrev MayBeObserved : Option WasmFunction → Type 0
MayBeObserved none = Unit
MayBeObserved (some wf) = IsObserved wf

clamp_battery-IsPercent : (percent : ℤ) → IsPercent (clamp_battery percent)
unfolding clamp_battery
clamp_battery-IsPercent percent = record { low = ground arith; high = ground arith }

observe_telemetry-IsObserved :
    (b : Bridge) (key : NamespacedName) (t : BatteryTelemetry) (battery : ℤ) (wf : WasmFunction)
    (now : Time) (result : TelemetryUpdateResult)
    → TracksPercents b
    → IsPercent battery
    → TracksPercents (observe_telemetry b key t battery wf now result).bridge
      × IsObserved (observe_telemetry b key t battery wf now result).wf
unfolding observe_telemetry observe_status
observe_telemetry-IsObserved b key t battery wf now result h q =
    let step =
      update_battery_delta_status-AllHoldPercents b.drain_tracker key wf t battery now result h q in
    (step.0, record { battery = q; drain = step.1 })

update-IsObserved :
    (attempts : List Attempt) (b : Bridge) (key : NamespacedName) (t : BatteryTelemetry)
    (battery : ℤ) (result : TelemetryUpdateResult)
    → TracksPercents b
    → IsPercent battery
    → TracksPercents (update_observed_telemetry attempts b key t battery result).bridge
      × MayBeObserved (update_observed_telemetry attempts b key t battery result).stored
unfolding update_observed_telemetry
update-IsObserved [] b key t battery result h q = (h, tt)
update-IsObserved (a ∷ attempts) b key t battery result h q =
    elim (a.fetch)
      as (λ f.
        let o =
          update_observed_telemetry (record a { fetch = f } ∷ attempts) b key t battery result in
        TracksPercents o.bridge × MayBeObserved o.stored) [
          | not_found ↦ (h, tt)
          | fetch_failed e ↦ (h, tt)
          | found wf ↦
              let step = observe_telemetry-IsObserved b key t battery wf a.now result h q in
              let o = observe_telemetry b key t battery wf a.now result in
              elim (a.patch)
                as (λ p.
                  let o =
                    update_observed_telemetry (record a { fetch = found wf; patch = p } ∷ attempts)
                      b key t battery result in
                  TracksPercents o.bridge × MayBeObserved o.stored) [
                    | patched ↦ step
                    | conflict ↦ update-IsObserved attempts o.bridge key t battery o.result step.0 q
                    | patch_failed e ↦ (step.0, tt)
                  ]
        ]

written-IsObserved :
    (o : Option WasmFunction) (rest : List WasmFunction)
    → MayBeObserved o
    → All IsObserved rest
    → All IsObserved (written_of o rest)
written-IsObserved none rest h hs = hs
written-IsObserved (some wf) rest h hs = (h, hs)

abbrev AllObserved : Bridge × (List WasmFunction × Option String) → Type 0
AllObserved r = TracksPercents r.0 × All IsObserved r.1.0

matching-IsObserved :
    (topic : String) (items : List (WasmFunction × List Attempt)) (b : Bridge)
    (t : BatteryTelemetry) (battery : ℤ)
    → TracksPercents b
    → IsPercent battery
    → AllObserved (update_matching topic items b t battery)
unfolding update_matching
matching-IsObserved topic [] b t battery h q = (h, tt)
matching-IsObserved topic ((wf, attempts) ∷ items) b t battery h q =
    let listens = text_eq (telemetry_topic_for_device wf.spec.device) topic in
    let o = update_observed_telemetry attempts b (key_of wf) t battery no_update in
    let here = update-IsObserved attempts b (key_of wf) t battery no_update h q in
    let next = if-cases TracksPercents listens {x = o.bridge} {y = b} (λ _. here.0) (λ _. h) in
    let rest = matching-IsObserved topic items (if listens then o.bridge else b) t battery next q in
    if-cases AllObserved (not listens) (λ _. rest)
      (λ _.
        if-cases AllObserved (is_some o.error)
          (λ _. (here.0, written-IsObserved o.stored [] here.1 tt))
          (λ _. (rest.0, written-IsObserved o.stored _ here.1 rest.1)))

-- Whatever a payload says and whatever the API server answers, with any conflicts and errors: if
-- the drain tracker holds percentages, it does so afterwards, and every resource that a report is
-- stored in has a battery percentage from 0 to 100, and a fall of the battery from 0 to 100 or
-- none.
pub apply_battery_telemetry-IsObserved :
    (decode_error list_error : Option String) (items : List (WasmFunction × List Attempt))
    (b : Bridge) (topic : String) (t : BatteryTelemetry)
    → TracksPercents b
    → TracksPercents (apply_battery_telemetry decode_error list_error items b topic t).0
      × All IsObserved (apply_battery_telemetry decode_error list_error items b topic t).1.0
unfolding apply_battery_telemetry
apply_battery_telemetry-IsObserved (some e) list_error items b topic t h = (h, tt)
apply_battery_telemetry-IsObserved none (some e) items b topic t h =
    elim (t.battery_percent)
      as (λ p.
        AllObserved (
          apply_battery_telemetry none (some e) items b topic (record t { battery_percent = p }))) [
            | none ↦ (h, tt)
            | some percent ↦ (h, tt)
          ]
apply_battery_telemetry-IsObserved none none items b topic t h =
    elim (t.battery_percent)
      as (λ p.
        AllObserved
          (apply_battery_telemetry none none items b topic (record t { battery_percent = p }))) [
            | none ↦ (h, tt)
            | some percent ↦
                let reported = normalize_telemetry (record t { battery_percent = some percent }) in
                matching-IsObserved topic items b reported (clamp_battery percent) h
                  (clamp_battery-IsPercent percent)
          ]
