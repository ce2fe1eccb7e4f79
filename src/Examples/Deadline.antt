-- ===== src/Examples/Deadline.antt =====
-- The deadline theorems at concrete estimates.
use sertay_thesis.Prelude.{◌≡◌, inl, inr, refl, true, false, arith}
use sertay_thesis.Prelude.Int.{pos}
use sertay_thesis.Prelude.Text.{trim_space, text_eq_iff}
use sertay_thesis.Policy.{
  effective_deadline_enabled, effective_deadline_safety_margin_ms, effective_deadline_min_slack_ms,
}
use sertay_thesis.Deadline.{DeadlineEstimateSnapshot, placement_edge, evaluate_deadline_admission}
use sertay_thesis.Deadline.Cost.{IsRealistic, stage_sum}
use sertay_thesis.Deadline.Admission.{IsJudged, admission_exact}
use sertay_thesis.Deadline.Overflow.{overflow_accepted}
use sertay_thesis.Examples.Data.{reader, estimates}

reader-IsJudged : IsJudged reader estimates (pos 500)
unfolding effective_deadline_enabled trim_space
reader-IsJudged = record {
  enabled = refl;
  identity = ground (arith, text_eq_iff "dht-reader" "");
  known = refl;
  matching = inl refl;
  targeted = refl;
  positive = omega arith;
  available = refl;
}

estimates-IsRealistic : IsRealistic estimates
estimates-IsRealistic = record {
  local_execution = omega arith;
  local_queue_delay = omega arith;
  resource_wake = omega arith;
  edge_execution = omega arith;
  network_round_trip = omega arith;
  resource_collection = omega arith;
  output_application = omega arith;
}

admission_exact_example :
    (evaluate_deadline_admission reader placement_edge false estimates).accepted ≡ true
unfolding stage_sum effective_deadline_safety_margin_ms effective_deadline_min_slack_ms
admission_exact_example =
    admission_exact reader placement_edge false estimates {target = pos 500} reader-IsJudged
      (inr (inl refl)) estimates-IsRealistic (omega arith) (omega arith)

abbrev slow : DeadlineEstimateSnapshot
slow = record estimates {
  network_round_trip_ms = pos 2147483647;
  edge_execution_ms = pos 2147483000;
}

slow-IsJudged : IsJudged reader slow (pos 500)
unfolding effective_deadline_enabled trim_space
slow-IsJudged = record {
  enabled = refl;
  identity = reader-IsJudged.identity;
  known = refl;
  matching = inl refl;
  targeted = refl;
  positive = omega arith;
  available = refl;
}

overflow_accepted_example :
    (evaluate_deadline_admission reader placement_edge false slow).accepted ≡ true
unfolding effective_deadline_safety_margin_ms effective_deadline_min_slack_ms
overflow_accepted_example =
    overflow_accepted reader slow {target = pos 500} slow-IsJudged refl refl refl refl refl
      (omega arith) (omega arith)
