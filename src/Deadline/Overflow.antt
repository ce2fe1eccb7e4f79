-- ===== src/Deadline/Overflow.antt =====
-- What the int32 sums of deadlineCandidateCost do past 2 ^ 31
-- (edge/operator/internal/controller/deadline_placement.go).
use sertay_thesis.Prelude.{ℕ, ◌+◌, ◌-◌, ◌^◌, ◌≤◌, ◌<◌, ◌≡◌, refl, ◌∙◌, true, false, arith}
use sertay_thesis.Prelude.Int.{ℤ, negsuc, pos_part, neg_part, leb_ℤ, add32, sub32}
use sertay_thesis.Api.{WasmFunction}
use sertay_thesis.Policy.{effective_deadline_min_slack_ms, effective_deadline_safety_margin_ms}
use sertay_thesis.Deadline.{
  DeadlineEstimateSnapshot, placement_edge, deadline_candidate_cost, evaluate_deadline_admission,
  initial_evaluation, judge_candidate,
}
use sertay_thesis.Deadline.Admission.{
  IsJudged, evaluate-judged, judge_slack-accepted, min_slack_pos,
}

-- Two sums of int32 values that are not negative, with the exact result from 2 ^ 31 on.
add32-wraps :
    (a b m : ℤ)
    → neg_part a ≡ 0
    → neg_part b ≡ 0
    → neg_part m ≡ 0
    → 2 ^ 31 ≤ pos_part a + pos_part b + pos_part m
    → pos_part a + pos_part b + pos_part m < 2 ^ 32
    → add32 (add32 a b) m ≡ negsuc (2 ^ 32 - (pos_part a + pos_part b + pos_part m) - 1)
unfolding add32
add32-wraps a b m p q r h k = ground arith

slack_of_wrapped :
    (target minimum : ℤ) (total : ℕ)
    → neg_part target ≡ 0
    → 0 < pos_part minimum
    → neg_part minimum ≡ 0
    → 2 ^ 31 + pos_part target < total
    → total + pos_part minimum ≤ 2 ^ 32
    → leb_ℤ minimum (sub32 target (negsuc (2 ^ 32 - total - 1))) ≡ true
unfolding sub32
slack_of_wrapped target minimum total p q r h k = ground arith

-- The exact cost of an edge candidate, for values that are not negative.
abbrev pub edge_total : WasmFunction → DeadlineEstimateSnapshot → ℕ
edge_total wf e =
    pos_part e.network_round_trip_ms
    + pos_part e.edge_execution_ms
    + pos_part (effective_deadline_safety_margin_ms wf)

-- The int32 cost wraps: where the code judges the candidate and no value is negative, an edge
-- candidate whose exact cost exceeds the target by more than 2 ^ 31 ms, and is at most 2 ^ 32
-- less the minimum slack, is accepted by a proposal that is not hard.
pub overflow_accepted :
    (wf : WasmFunction) (e : DeadlineEstimateSnapshot) {target : ℤ}
    → IsJudged wf e target
    → neg_part target ≡ 0
    → neg_part e.network_round_trip_ms ≡ 0
    → neg_part e.edge_execution_ms ≡ 0
    → neg_part (effective_deadline_safety_margin_ms wf) ≡ 0
    → neg_part (effective_deadline_min_slack_ms wf) ≡ 0
    → 2 ^ 31 + pos_part target < edge_total wf e
    → edge_total wf e + pos_part (effective_deadline_min_slack_ms wf) ≤ 2 ^ 32
    → (evaluate_deadline_admission wf placement_edge false e).accepted ≡ true
unfolding judge_candidate initial_evaluation deadline_candidate_cost
overflow_accepted wf e {target} judged t n x m s h k =
    let margin = effective_deadline_safety_margin_ms wf in
    let minimum = effective_deadline_min_slack_ms wf in
    let total = edge_total wf e in
    rw (evaluate-judged wf placement_edge false e judged) (
      rw
        (add32-wraps e.network_round_trip_ms e.edge_execution_ms margin n x m (omega arith)
          (omega (arith, min_slack_pos wf)))
        (judge_slack-accepted wf placement_edge false target (negsuc (2 ^ 32 - total - 1))
            (initial_evaluation wf placement_edge) refl
          ∙ slack_of_wrapped target minimum total t (min_slack_pos wf) s h k))
