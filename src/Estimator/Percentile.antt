-- ===== src/Estimator/Percentile.antt =====
-- estimateDeadlinePercentile (edge/operator/internal/controller/deadline_estimator.go).
use sertay_thesis.Prelude.{
  ℕ, ◌+◌, ◌-◌, ◌*◌, ◌/◌, Option, none, some, List, [], ◌∷◌, ltb, length, get_elem?, if◌then◌else◌,
}
use sertay_thesis.Prelude.Int.{ℤ, pos, ltb_ℤ, leb_ℤ, pos_part}
use sertay_thesis.Prelude.Maps.{string_eq}
use sertay_thesis.Estimator.Sample.{DeadlineTelemetrySample}

-- The values of a stage that are there and not negative.
unfoldable pub stage_values :
    (DeadlineTelemetrySample → Option ℤ) → List DeadlineTelemetrySample → List ℤ
stage_values value_for [] = []
stage_values value_for (s ∷ samples) =
    let rest = stage_values value_for samples in
    elim (value_for s) [ none ↦ rest | some v ↦ if ltb_ℤ v (pos 0) then rest else v ∷ rest ]

-- sort.Slice by <
unfoldable pub insert_sorted : ℤ → List ℤ → List ℤ
insert_sorted v [] = v ∷ []
insert_sorted v (w ∷ ws) =
    let rest = insert_sorted v ws in if leb_ℤ v w then v ∷ w ∷ ws else w ∷ rest

unfoldable pub sort_values : List ℤ → List ℤ
sort_values [] = []
sort_values (v ∷ vs) = insert_sorted v (sort_values vs)

-- The index of the percentile in `count` values, from 1.
unfoldable pub percentile_index : ℤ → ℕ → ℕ
percentile_index percentile count =
    let index = (pos_part percentile * count + 99) / 100 in
    let raised = if ltb index 1 then 1 else index in if ltb count raised then count else raised

-- The value at the percentile; nothing stands for an index out of range.
unfoldable pub percentile_value : ℤ → List ℤ → Option ℤ
percentile_value percentile values =
    get_elem? (sort_values values) (percentile_index percentile (length values) - 1)

abbrev pub or_else : ℤ → Option ℤ → ℤ
or_else fallback none = fallback
or_else fallback (some v) = v

-- The source indexes the slice directly; Percentile shows that the index is in range.
unfoldable pub estimate_deadline_percentile :
    List DeadlineTelemetrySample → (DeadlineTelemetrySample → Option ℤ) → ℤ → ℤ → ℤ → ℤ
estimate_deadline_percentile samples value_for min_samples percentile fallback =
    let values = stage_values value_for samples in
    if ltb_ℤ (pos (length values)) min_samples
    then fallback
    else or_else fallback (percentile_value percentile values)
