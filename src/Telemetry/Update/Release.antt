-- ===== src/Telemetry/Update/Release.antt =====
-- What a report says about the release that a device holds (updateObservedTelemetry of
-- edge/operator/internal/controller/mqtt_telemetry.go with releaseDeliveryState of
-- edge/operator/internal/controller/artifact_sync.go).
use sertay_thesis.Prelude.{
  ◌≡◌, ◌≢◌, refl, true, false, not, ◌&&◌, Option, none, some, arith, if-cases, if◌then◌else◌,
}
use sertay_thesis.Prelude.Int.{ℤ, pos, ◌<ℤ◌}
use sertay_thesis.Prelude.Text.{String, text_eq_iff, text_eq_refl, trim_space}
use sertay_thesis.Prelude.Time.{Time}
use sertay_thesis.Prelude.Maps.{NamespacedName}
use sertay_thesis.Api.{WasmFunction}
use sertay_thesis.Policy.{effective_battery_delta_enabled}
use sertay_thesis.Release.{
  normalize_artifact_digest, device_release_staged, device_release_active, no_release,
  release_delivery_state, stage_command_id, activate_local_command_id, runtime_edge_command_id,
}
use sertay_thesis.Telemetry.{BatteryTelemetry, TelemetryUpdateResult}
use sertay_thesis.Telemetry.Drain.{
  BatteryDrainTracker, update_battery_delta_status, set_battery_drain_status, put_drain_status,
}
use sertay_thesis.Telemetry.Update.{Bridge, text_changes, observe_status, observe_telemetry}

-- The resource after a report, whatever the drain tracker writes.
abbrev pub with_report :
    WasmFunction → BatteryTelemetry → ℤ → Time → Option ℤ → Option ℤ → ℤ → WasmFunction
with_report wf t battery now delta window risky = record wf {
  status = observe_status (put_drain_status wf.status delta window risky) t battery now;
}

-- What holds whatever the drain tracker writes holds of the observation.
pub observe_telemetry-cases :
    (P : WasmFunction → Type 0) (wf : WasmFunction) (b : Bridge) (key : NamespacedName)
    (t : BatteryTelemetry) (battery : ℤ) (now : Time) (result : TelemetryUpdateResult)
    → ((delta window : Option ℤ) (risky : ℤ) → P (with_report wf t battery now delta window risky))
    → P (observe_telemetry b key t battery wf now result).wf
unfolding observe_telemetry update_battery_delta_status set_battery_drain_status
observe_telemetry-cases P wf b key t battery now result h =
    if-cases
      (λ (step : BatteryDrainTracker × (WasmFunction × TelemetryUpdateResult)).
        P (record step.1.0 { status = observe_status step.1.0.status t battery now }))
      (not (effective_battery_delta_enabled wf)) (λ _. h _ _ _) (λ _. h _ _ _)

-- The report names the release that the resource declares as the one the device runs.
pub record IsActivation (wf : WasmFunction) (t : BatteryTelemetry) : Type 0 where
  pub generation : t.release_generation ≡ some wf.spec.release.generation
  pub function : trim_space t.function ≡ trim_space wf.spec.release.function_identity
  pub digest :
      normalize_artifact_digest t.artifact_digest
      ≡ normalize_artifact_digest wf.spec.release.artifact_digest
  pub function_given : t.function ≢ ""
  pub digest_given : t.artifact_digest ≢ ""

taken :
    (old reported : String)
    → reported ≢ ""
    → (if text_changes old reported then reported else old) ≡ reported
taken old reported given = ground (arith, text_eq_iff reported "", text_eq_iff old reported, given)

kept : (old : String) → (if text_changes old "" then "" else old) ≡ old
kept old = ground arith

activated_lem :
    (wf : WasmFunction) (t : BatteryTelemetry) (battery : ℤ) (now : Time) (delta window : Option ℤ)
    (risky : ℤ)
    → IsActivation wf t
    → device_release_active
        (with_report wf t battery now delta window risky)
        (normalize_artifact_digest wf.spec.release.artifact_digest)
      ≡ true
unfolding device_release_active observe_status put_drain_status
activated_lem wf t battery now delta window risky h =
    rw
      (
        taken wf.status.observed_artifact_digest t.artifact_digest h.digest_given,
        taken wf.status.observed_function t.function h.function_given,
        h.digest,
        h.function,
        h.generation,
        text_eq_refl (normalize_artifact_digest wf.spec.release.artifact_digest),
        text_eq_refl (trim_space wf.spec.release.function_identity),
      )
      (ground arith)

active_delivery :
    (wf : WasmFunction) (digest : String)
    → digest ≢ ""
    → pos 0 <ℤ wf.spec.release.generation
    → device_release_active wf digest ≡ true
    → release_delivery_state wf digest ≡ "Active"
unfolding release_delivery_state no_release
active_delivery wf digest declared positive active =
    ground (arith, declared, positive, active, text_eq_iff digest "")

-- Where the declared release has a digest and a positive generation, a report that names its
-- generation, digest and function makes the delivery `Active` and is acknowledged exactly where
-- the device was not active before, whatever the status, the drain tracker and the estimator held.
pub activation_report_lem :
    (wf : WasmFunction) (b : Bridge) (key : NamespacedName) (t : BatteryTelemetry) (battery : ℤ)
    (now : Time) (result : TelemetryUpdateResult)
    → normalize_artifact_digest wf.spec.release.artifact_digest ≢ ""
    → pos 0 <ℤ wf.spec.release.generation
    → IsActivation wf t
    → (release_delivery_state
          (observe_telemetry b key t battery wf now result).wf
          (normalize_artifact_digest wf.spec.release.artifact_digest)
        ≡ "Active")
      × ((observe_telemetry b key t battery wf now result).result.activated_release_acknowledged
          ≡ not (
              device_release_active wf (normalize_artifact_digest wf.spec.release.artifact_digest)))
unfolding observe_telemetry
activation_report_lem wf b key t battery now result declared positive h =
    let digest = normalize_artifact_digest wf.spec.release.artifact_digest in
    let before = device_release_active wf digest in
    observe_telemetry-cases
      (λ wf'.
        (release_delivery_state wf' digest ≡ "Active")
        × ((not before && device_release_active wf' digest) ≡ not before))
      wf b key t battery now result
      (λ delta window risky.
        let active = activated_lem wf t battery now delta window risky h in
        (
          active_delivery (with_report wf t battery now delta window risky) digest declared positive
              active,
          rw active (ground arith),
        ))

-- The report says nothing of a release.
pub record IsSilent (t : BatteryTelemetry) : Type 0 where
  pub generation : t.release_generation ≡ none
  pub staged_generation : t.staged_generation ≡ none
  pub staged_digest : t.staged_artifact_digest ≡ none
  pub function : t.function ≡ ""
  pub digest : t.artifact_digest ≡ ""

silent_lem :
    (wf : WasmFunction) (t : BatteryTelemetry) (battery : ℤ) (now : Time) (delta window : Option ℤ)
    (risky : ℤ) (digest : String)
    → IsSilent t
    → (release_delivery_state (with_report wf t battery now delta window risky) digest
        ≡ release_delivery_state wf digest)
      × (device_release_staged (with_report wf t battery now delta window risky) digest
          ≡ device_release_staged wf digest)
      × (device_release_active (with_report wf t battery now delta window risky) digest
          ≡ device_release_active wf digest)
unfolding observe_status put_drain_status device_release_active device_release_staged
    release_delivery_state no_release stage_command_id activate_local_command_id
    runtime_edge_command_id
silent_lem wf t battery now delta window risky digest h =
    rw
      (
        h.generation,
        h.staged_generation,
        h.staged_digest,
        h.function,
        h.digest,
        kept wf.status.observed_artifact_digest,
        kept wf.status.observed_function,
      )
      (refl, refl, refl)

-- A report that says nothing of a release leaves the delivery state as it was and acknowledges
-- nothing.
pub silent_report_lem :
    (wf : WasmFunction) (b : Bridge) (key : NamespacedName) (t : BatteryTelemetry) (battery : ℤ)
    (now : Time) (result : TelemetryUpdateResult)
    → IsSilent t
    → (release_delivery_state
          (observe_telemetry b key t battery wf now result).wf
          (normalize_artifact_digest wf.spec.release.artifact_digest)
        ≡ release_delivery_state wf (normalize_artifact_digest wf.spec.release.artifact_digest))
      × ((observe_telemetry b key t battery wf now result).result.staged_release_acknowledged
          ≡ false)
      × ((observe_telemetry b key t battery wf now result).result.activated_release_acknowledged
          ≡ false)
unfolding observe_telemetry
silent_report_lem wf b key t battery now result h =
    let digest = normalize_artifact_digest wf.spec.release.artifact_digest in
    observe_telemetry-cases
      (λ wf'.
        (release_delivery_state wf' digest ≡ release_delivery_state wf digest)
        × ((not (device_release_staged wf digest) && device_release_staged wf' digest) ≡ false)
        × ((not (device_release_active wf digest) && device_release_active wf' digest) ≡ false))
      wf b key t battery now result
      (λ delta window risky.
        let (delivery, staged, active) = silent_lem wf t battery now delta window risky digest h in
        (delivery, rw staged (ground arith), rw active (ground arith)))
