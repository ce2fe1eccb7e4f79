-- ===== src/Deadline/Admission.antt =====
-- What evaluateDeadlineAdmission decides
-- (edge/operator/internal/controller/deadline_placement.go).
use sertay_thesis.Prelude.{
  ℕ, ◌+◌, ◌^◌, ◌<◌, ◌≡◌, ◌≢◌, ◌⊎◌, inl, inr, refl, ap, ◌∙◌, Bool, true, not, ◌||◌, Option, none,
  some, arith, leb, Option-cases,
}
use sertay_thesis.Prelude.Int.{ℤ, pos, pos_part, leb_ℤ, sub32, Int32}
use sertay_thesis.Prelude.Text.{String, text_eq_iff, trim_space}
use sertay_thesis.Api.{WasmFunction}
use sertay_thesis.Policy.{
  effective_deadline_enabled, effective_deadline_min_slack_ms, effective_deadline_safety_margin_ms,
}
use sertay_thesis.Deadline.{
  DeadlineEstimateSnapshot, DeadlineEvaluation, initial_evaluation, judge_slack, judge_candidate,
  judge_target, abstain, deadline_candidate_cost, evaluate_deadline_admission,
}
use sertay_thesis.Deadline.Cost.{
  IsPlacement, IsShort, IsRealistic, stage_sum, stage_sum-lt, candidate_cost_exact,
}

judge_slack-blocks :
    (wf : WasmFunction) (c : String) (hard : Bool) (target cost : ℤ) (s : DeadlineEvaluation)
    → s.blocks_transition ≡ not s.accepted
    → (judge_slack wf c hard target cost s).blocks_transition
      ≡ not (judge_slack wf c hard target cost s).accepted
unfolding judge_slack
judge_slack-blocks wf c hard target cost s h = ground arith

judge_candidate-blocks :
    (wf : WasmFunction) (c : String) (hard : Bool) (t : ℤ) (e : DeadlineEstimateSnapshot)
    (s : DeadlineEvaluation)
    → s.blocks_transition ≡ not s.accepted
    → (judge_candidate wf c hard t e s).blocks_transition
      ≡ not (judge_candidate wf c hard t e s).accepted
unfolding judge_candidate
judge_candidate-blocks wf c hard t e s h =
    elim (Option-cases (deadline_candidate_cost c e (effective_deadline_safety_margin_ms wf))) [
      | inl p ↦ rw (p, judge_candidate)
      | inr (cost, p) ↦ rw (p, judge_candidate) (judge_slack-blocks wf c hard t cost s h)
    ]

judge_target-blocks :
    (t : Option ℤ) (wf : WasmFunction) (i c : String) (hard : Bool) (e : DeadlineEstimateSnapshot)
    (s : DeadlineEvaluation)
    → s.blocks_transition ≡ not s.accepted
    → (judge_target t wf i c hard e s).blocks_transition
      ≡ not (judge_target t wf i c hard e s).accepted
unfolding judge_target abstain
judge_target-blocks none wf i c hard e s h = ground arith
judge_target-blocks (some t) wf i c hard e s h =
    ground (arith, judge_candidate-blocks wf c hard t e s)

-- A transition is blocked exactly when the candidate is not accepted, on every path.
pub blocks_not_accepted :
    (wf : WasmFunction) (c : String) (hard : Bool) (e : DeadlineEstimateSnapshot)
    → (evaluate_deadline_admission wf c hard e).blocks_transition
      ≡ not (evaluate_deadline_admission wf c hard e).accepted
unfolding evaluate_deadline_admission initial_evaluation
blocks_not_accepted wf c hard e = ground (
  arith,
  judge_target-blocks wf.spec.placement.deadline.target_ms wf
      (trim_space wf.spec.release.function_identity) c hard e (initial_evaluation wf c),
)

-- The conditions under which the code compares the predicted finish with the target.
pub record IsJudged (wf : WasmFunction) (e : DeadlineEstimateSnapshot) (target : ℤ) : Type 0 where
  pub enabled : effective_deadline_enabled wf ≡ true
  pub identity : trim_space wf.spec.release.function_identity ≢ ""
  pub known : e.identity_known ≡ true
  pub matching :
      (trim_space wf.status.observed_function ≡ "")
      ⊎ (trim_space wf.status.observed_function ≡ trim_space wf.spec.release.function_identity)
  pub targeted : wf.spec.placement.deadline.target_ms ≡ some target
  pub positive : 0 < pos_part target
  pub available : e.available ≡ true

module _ (wf : WasmFunction) (c : String) (hard : Bool) (e : DeadlineEstimateSnapshot) {target : ℤ}
    (judged : IsJudged wf e target) where
  pub evaluate-judged :
      evaluate_deadline_admission wf c hard e
      ≡ judge_candidate wf c hard target e (initial_evaluation wf c)
  unfolding evaluate_deadline_admission initial_evaluation judge_target
  evaluate-judged = rw judged.targeted (
      ground (
        arith,
        text_eq_iff (trim_space wf.spec.release.function_identity) "",
        text_eq_iff (trim_space wf.status.observed_function) "",
        text_eq_iff (trim_space wf.status.observed_function)
            (trim_space wf.spec.release.function_identity),
      ))

pub judge_slack-accepted :
    (wf : WasmFunction) (c : String) (hard : Bool) (target cost : ℤ) (s : DeadlineEvaluation)
    → s.accepted ≡ true
    → (judge_slack wf c hard target cost s).accepted
      ≡ (hard || leb_ℤ (effective_deadline_min_slack_ms wf) (sub32 target cost))
unfolding judge_slack
judge_slack-accepted wf c hard target cost s h = ground arith

pub min_slack_pos : (wf : WasmFunction) → 0 < pos_part (effective_deadline_min_slack_ms wf)
unfolding effective_deadline_min_slack_ms
min_slack_pos wf = ground arith

-- With a positive target and a cost below 2 ^ 31 the slack does not wrap.
slack_exact :
    (target minimum : ℤ) (cost : ℕ)
    → Int32 target
    → 0 < pos_part target
    → cost < 2 ^ 31
    → 0 < pos_part minimum
    → leb_ℤ minimum (sub32 target (pos cost)) ≡ leb (cost + pos_part minimum) (pos_part target)
unfolding sub32
slack_exact target minimum cost t p c m = ground arith

-- Where a candidate is judged at all, since the deadline policy is enabled, the function identity is
-- given, known to the estimates and not contradicted by the observed function, a positive target is
-- given and estimates are available: for realistic estimates, an int32 target and a short margin, a
-- candidate that is one of the three placements is accepted exactly when the proposal is hard or its
-- stages, the safety margin and the minimum slack fit in the target, in exact arithmetic.
pub admission_exact :
    (wf : WasmFunction) (c : String) (hard : Bool) (e : DeadlineEstimateSnapshot) {target : ℤ}
    → IsJudged wf e target
    → IsPlacement c
    → IsRealistic e
    → Int32 target
    → IsShort (effective_deadline_safety_margin_ms wf)
    → (evaluate_deadline_admission wf c hard e).accepted ≡ (
        hard
        || leb
            (stage_sum c e
              + pos_part (effective_deadline_safety_margin_ms wf)
              + pos_part (effective_deadline_min_slack_ms wf))
            (pos_part target))
unfolding judge_candidate initial_evaluation
admission_exact wf c hard e {target} judged p real t m =
    let margin = effective_deadline_safety_margin_ms wf in
    let cost = stage_sum c e + pos_part margin in
    rw (evaluate-judged wf c hard e judged) (
      rw (candidate_cost_exact c e margin p real m, judge_candidate)
        (judge_slack-accepted wf c hard target (pos cost) (initial_evaluation wf c) refl
          ∙ ap (λ b. hard || b)
              (slack_exact target (effective_deadline_min_slack_ms wf) cost t judged.positive
                (omega (arith, stage_sum-lt c e p real)) (min_slack_pos wf))))

judge_candidate-hard :
    (wf : WasmFunction) (c : String) (t : ℤ) (e : DeadlineEstimateSnapshot)
    → IsPlacement c
    → (judge_candidate wf c true t e (initial_evaluation wf c)).accepted ≡ true
unfolding judge_candidate judge_slack initial_evaluation deadline_candidate_cost
judge_candidate-hard wf c t e (inl p) = rw p (ground arith)
judge_candidate-hard wf c t e (inr (inl p)) = rw p (ground arith)
judge_candidate-hard wf c t e (inr (inr p)) = rw p (ground arith)

-- A hard proposal of one of the three placements is accepted whatever the deadline policy, the
-- telemetry and the estimates are.
pub hard_accepted :
    (wf : WasmFunction) (c : String) (e : DeadlineEstimateSnapshot)
    → IsPlacement c
    → (evaluate_deadline_admission wf c true e).accepted ≡ true
unfolding evaluate_deadline_admission initial_evaluation judge_target abstain
hard_accepted wf c e p = elim (Option-cases wf.spec.placement.deadline.target_ms) [
  | inl q ↦ rw q (ground arith)
  | inr (t, q) ↦ rw q (ground (arith, judge_candidate-hard wf c t e p))
]
