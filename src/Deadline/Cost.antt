-- ===== src/Deadline/Cost.antt =====
-- The cost of a candidate in exact arithmetic, and when the int32 code computes it
-- (deadlineCandidateCost of edge/operator/internal/controller/deadline_placement.go).
use sertay_thesis.Prelude.{ℕ, ◌+◌, ◌^◌, ◌<◌, ◌≡◌, ◌⊎◌, inl, inr, ap, some, arith, if◌then◌else◌}
use sertay_thesis.Prelude.Int.{ℤ, pos, pos_part, neg_part, add32}
use sertay_thesis.Prelude.Text.{String, text_eq}
use sertay_thesis.Deadline.{
  DeadlineEstimateSnapshot, placement_local, placement_edge, placement_hybrid,
  deadline_candidate_cost,
}

abbrev pub IsPlacement : String → Type 0
IsPlacement p = (p ≡ placement_local) ⊎ (p ≡ placement_edge) ⊎ (p ≡ placement_hybrid)

-- A duration that is not negative and below 2 ^ 28 ms, some three days.
abbrev pub IsShort : ℤ → Type 0
IsShort z = (neg_part z ≡ 0) × (pos_part z < 2 ^ 28)

pub record IsRealistic (estimates : DeadlineEstimateSnapshot) : Type 0 where
  pub local_execution : IsShort estimates.local_execution_ms
  pub local_queue_delay : IsShort estimates.local_queue_delay_ms
  pub resource_wake : IsShort estimates.resource_wake_ms
  pub edge_execution : IsShort estimates.edge_execution_ms
  pub network_round_trip : IsShort estimates.network_round_trip_ms
  pub resource_collection : IsShort estimates.resource_collection_ms
  pub output_application : IsShort estimates.output_application_ms

-- The exact sum of the stages that a placement goes through, in milliseconds.
unfoldable pub stage_sum : String → DeadlineEstimateSnapshot → ℕ
stage_sum candidate e =
    if text_eq candidate placement_local
    then pos_part e.local_queue_delay_ms
      + pos_part e.resource_wake_ms
      + pos_part e.local_execution_ms
    else if text_eq candidate placement_edge
    then pos_part e.network_round_trip_ms + pos_part e.edge_execution_ms
    else pos_part e.resource_collection_ms
      + pos_part e.network_round_trip_ms
      + pos_part e.edge_execution_ms
      + pos_part e.output_application_ms

-- `z` is the number `n`.
abbrev Is : ℕ → ℤ → Type 0
Is n z = (neg_part z ≡ 0) × (pos_part z ≡ n)

add32-Is : (m n : ℕ) (a b : ℤ) → Is m a → Is n b → m + n < 2 ^ 31 → Is (m + n) (add32 a b)
unfolding add32
add32-Is m n a b p q h = ground arith

add32_short :
    (n : ℕ) (a b : ℤ) → Is n a → IsShort b → n < 2 ^ 30 + 2 ^ 28 → Is (n + pos_part b) (add32 a b)
add32_short n a b p q h = add32-Is n (pos_part b) a b p (omega arith) (omega arith)

pub Is-pos : (n : ℕ) (z : ℤ) → Is n z → z ≡ pos n
Is-pos n z h = ground arith

local_sum :
    (e : DeadlineEstimateSnapshot) (margin : ℤ)
    → IsRealistic e
    → IsShort margin
    → deadline_candidate_cost placement_local e margin
      ≡ some (pos (stage_sum placement_local e + pos_part margin))
unfolding deadline_candidate_cost stage_sum
local_sum e margin r m = ap some (
    Is-pos _ _ (
      add32_short _ _ _
        (add32_short _ _ _ (add32_short _ _ _ (omega arith) r.resource_wake (omega arith))
          r.local_execution (omega arith))
        m (omega arith)))

edge_sum :
    (e : DeadlineEstimateSnapshot) (margin : ℤ)
    → IsRealistic e
    → IsShort margin
    → deadline_candidate_cost placement_edge e margin
      ≡ some (pos (stage_sum placement_edge e + pos_part margin))
unfolding deadline_candidate_cost stage_sum
edge_sum e margin r m = ap some (
    Is-pos _ _ (
      add32_short _ _ _ (add32_short _ _ _ (omega arith) r.edge_execution (omega arith)) m
        (omega arith)))

hybrid_sum :
    (e : DeadlineEstimateSnapshot) (margin : ℤ)
    → IsRealistic e
    → IsShort margin
    → deadline_candidate_cost placement_hybrid e margin
      ≡ some (pos (stage_sum placement_hybrid e + pos_part margin))
unfolding deadline_candidate_cost stage_sum
hybrid_sum e margin r m = ap some (
    Is-pos _ _ (
      add32_short _ _ _
        (add32_short _ _ _
          (add32_short _ _ _ (add32_short _ _ _ (omega arith) r.network_round_trip (omega arith))
            r.edge_execution (omega arith))
          r.output_application (omega arith))
        m (omega arith)))

-- For estimates below 2 ^ 28 ms the int32 cost of a placement is the exact sum of its stages and
-- the margin.
pub candidate_cost_exact :
    (c : String) (e : DeadlineEstimateSnapshot) (margin : ℤ)
    → IsPlacement c
    → IsRealistic e
    → IsShort margin
    → deadline_candidate_cost c e margin ≡ some (pos (stage_sum c e + pos_part margin))
candidate_cost_exact c e margin (inl p) r m = rw p (local_sum e margin r m)
candidate_cost_exact c e margin (inr (inl p)) r m = rw p (edge_sum e margin r m)
candidate_cost_exact c e margin (inr (inr p)) r m = rw p (hybrid_sum e margin r m)

pub stage_sum-lt :
    (c : String) (e : DeadlineEstimateSnapshot)
    → IsPlacement c
    → IsRealistic e
    → stage_sum c e < 2 ^ 30
unfolding stage_sum
stage_sum-lt c e p r = ground arith
