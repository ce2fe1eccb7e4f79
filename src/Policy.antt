-- ===== src/Policy.antt =====
-- The defaults of the placement policy: each `effective…` function of
-- edge/operator/internal/controller/wasmfunction_controller.go and deadline_placement.go.
use sertay_thesis.Prelude.{Bool, true, Option, none, some, if◌then◌else◌}
use sertay_thesis.Prelude.Int.{ℤ, pos, ltb_ℤ}
use sertay_thesis.Api.{WasmFunction}

abbrev pub default_low_battery_threshold : ℤ
default_low_battery_threshold = pos 20

abbrev pub default_high_battery_threshold : ℤ
default_high_battery_threshold = pos 60

-- a nil flag counts as set
abbrev pub enabled_or_default : Option Bool → Bool
enabled_or_default none = true
enabled_or_default (some b) = b

-- a value that is not positive counts as omitted
abbrev pub positive_or : ℤ → ℤ → ℤ
positive_or value default = if ltb_ℤ (pos 0) value then value else default

unfoldable pub effective_battery_threshold_enabled : WasmFunction → Bool
effective_battery_threshold_enabled wf =
    enabled_or_default wf.spec.placement.battery_threshold.enabled

unfoldable pub effective_deadline_enabled : WasmFunction → Bool
effective_deadline_enabled wf = enabled_or_default wf.spec.placement.deadline.enabled

unfoldable pub effective_battery_delta_enabled : WasmFunction → Bool
effective_battery_delta_enabled wf = enabled_or_default wf.spec.placement.battery_delta.enabled

unfoldable pub effective_battery_delta_window_seconds : WasmFunction → ℤ
effective_battery_delta_window_seconds wf =
    positive_or wf.spec.placement.battery_delta.window_seconds (pos 60)

unfoldable pub effective_battery_delta_max_drain_percent : WasmFunction → ℤ
effective_battery_delta_max_drain_percent wf =
    positive_or wf.spec.placement.battery_delta.max_drain_percent (pos 3)

unfoldable pub effective_battery_delta_risky_windows : WasmFunction → ℤ
effective_battery_delta_risky_windows wf =
    positive_or wf.spec.placement.battery_delta.risky_windows_to_offload (pos 2)

unfoldable pub effective_deadline_min_slack_ms : WasmFunction → ℤ
effective_deadline_min_slack_ms wf = positive_or wf.spec.placement.deadline.min_slack_ms (pos 500)

unfoldable pub effective_deadline_safety_margin_ms : WasmFunction → ℤ
effective_deadline_safety_margin_ms wf =
    positive_or wf.spec.placement.deadline.safety_margin_ms (pos 250)

unfoldable pub effective_deadline_estimator_window_seconds : WasmFunction → ℤ
effective_deadline_estimator_window_seconds wf =
    positive_or wf.spec.placement.deadline.estimator.window_seconds (pos 300)

unfoldable pub effective_deadline_estimator_min_samples : WasmFunction → ℤ
effective_deadline_estimator_min_samples wf =
    positive_or wf.spec.placement.deadline.estimator.min_samples (pos 5)

unfoldable pub effective_deadline_estimator_percentile : WasmFunction → ℤ
effective_deadline_estimator_percentile wf =
    positive_or wf.spec.placement.deadline.estimator.percentile (pos 95)
