-- ===== src/Estimator/Record.antt =====
-- recordAndEstimate (edge/operator/internal/controller/deadline_estimator.go).
use sertay_thesis.Prelude.{
  ◌-◌, ◌*◌, not, Option, none, some, List, [], ◌∷◌, snoc, ◌==◌, length, if◌then◌else◌,
}
use sertay_thesis.Prelude.Int.{pos_part}
use sertay_thesis.Prelude.Text.{String, text_eq, trim_space, to_lower, starts_with, ◌++◌}
use sertay_thesis.Prelude.Time.{Time, second}
use sertay_thesis.Prelude.Maps.{string_eq, lookup, insert}
use sertay_thesis.Api.{WasmFunction}
use sertay_thesis.Policy.{effective_deadline_estimator_window_seconds}
use sertay_thesis.Deadline.{DeadlineEstimateSnapshot}
use sertay_thesis.Window.{kept_since}
use sertay_thesis.Telemetry.{BatteryTelemetry}
use sertay_thesis.Estimator.Sample.{
  DeadlineTelemetrySample, DeadlineTelemetryEstimator, unavailable_deadline_estimate,
  deadline_estimator_function, deadline_estimator_key_prefix, deadline_estimator_key,
  deadline_sample_from_telemetry,
}
use sertay_thesis.Estimator.Snapshot.{samples_of, snapshot_locked}

-- The loop over the keys of a function: old samples are dropped, and keys without samples deleted.
unfoldable pub prune_samples :
    String
    → Time
    → List (String × List DeadlineTelemetrySample)
    → List (String × List DeadlineTelemetrySample)
prune_samples prefix cutoff [] = []
prune_samples prefix cutoff ((key, samples) ∷ entries) =
    let rest = prune_samples prefix cutoff entries in
    let kept = kept_since (λ s. s.sampled_at) cutoff samples in
    if not (starts_with key (prefix ++ "/"))
    then (key, samples) ∷ rest
    else if length kept == 0
    then rest
    else (key, kept) ∷ rest

unfoldable pub add_sample :
    String
    → Option DeadlineTelemetrySample
    → List (String × List DeadlineTelemetrySample)
    → List (String × List DeadlineTelemetrySample)
add_sample key none entries = entries
add_sample key (some s) entries = insert key (snoc (samples_of (lookup key entries)) s) entries

-- The samples after a report. A cutoff before the zero time drops nothing, like the zero time.
unfoldable pub record_samples :
    DeadlineTelemetryEstimator
    → WasmFunction
    → String
    → BatteryTelemetry
    → Time
    → DeadlineTelemetryEstimator
record_samples e wf function telemetry now =
    let prefix = deadline_estimator_key_prefix wf.namespace wf.name function in
    let mode = to_lower (trim_space telemetry.mode) in
    let window = pos_part (effective_deadline_estimator_window_seconds wf) * second in
    let added =
      add_sample (deadline_estimator_key prefix mode)
        (deadline_sample_from_telemetry mode telemetry now) e.samples in
    record e { samples = prune_samples prefix (now - window) added }

unfoldable pub record_and_estimate :
    DeadlineTelemetryEstimator
    → WasmFunction
    → BatteryTelemetry
    → Time
    → DeadlineEstimateSnapshot × DeadlineTelemetryEstimator
record_and_estimate e wf telemetry now =
    let function = deadline_estimator_function wf telemetry in
    let e' = record_samples e wf function telemetry now in
    if text_eq function ""
    then (unavailable_deadline_estimate wf, e)
    else (snapshot_locked e' wf (deadline_estimator_key_prefix wf.namespace wf.name function), e')
