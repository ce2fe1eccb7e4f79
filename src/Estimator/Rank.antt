-- ===== src/Estimator/Rank.antt =====
-- The percentile of the estimator is the nearest rank (estimateDeadlinePercentile of
-- edge/operator/internal/controller/deadline_estimator.go).
use sertay_thesis.Prelude.{
  ℕ, zero, suc, ◌+◌, ◌-◌, ◌*◌, ◌≤◌, ◌<◌, ◌≡◌, refl, ◌∙◌, ap, Bool, Option, some, List, [], ◌∷◌,
  length, get_elem?, All, arith, if◌then◌else◌,
}
use sertay_thesis.Prelude.Int.{ℤ, pos, leb_ℤ, ltb_ℤ, eq_ℤ, ◌≤ℤ◌, ◌<ℤ◌}
use sertay_thesis.Estimator.Sample.{DeadlineTelemetrySample}
use sertay_thesis.Estimator.Percentile.{
  stage_values, insert_sorted, sort_values, percentile_index, percentile_value,
  estimate_deadline_percentile,
}

-- How many of the values pass a test.
unfoldable pub count : (ℤ → Bool) → List ℤ → ℕ
count p [] = 0
count p (v ∷ vs) = let rest = count p vs in if p v then suc rest else rest

abbrev IsAscending : List ℤ → Type 0
IsAscending [] = Unit
IsAscending (v ∷ vs) = All (λ w. v ≤ℤ w) vs × IsAscending vs

count-insert_sorted :
    (p : ℤ → Bool) (v : ℤ) (ws : List ℤ) → count p (insert_sorted v ws) ≡ count p (v ∷ ws)
unfolding count insert_sorted
count-insert_sorted p v [] = refl
count-insert_sorted p v (w ∷ ws) = ground (arith, count-insert_sorted p v ws)

count-sort_values : (p : ℤ → Bool) (vs : List ℤ) → count p (sort_values vs) ≡ count p vs
unfolding count sort_values
count-sort_values p [] = refl
count-sort_values p (v ∷ vs) =
    ground (arith, count-insert_sorted p v (sort_values vs), count-sort_values p vs)

length-insert_sorted : (v : ℤ) (ws : List ℤ) → length (insert_sorted v ws) ≡ suc (length ws)
unfolding insert_sorted
length-insert_sorted v [] = refl
length-insert_sorted v (w ∷ ws) = ground (arith, length-insert_sorted v ws)

length-sort_values : (vs : List ℤ) → length (sort_values vs) ≡ length vs
unfolding sort_values
length-sort_values [] = refl
length-sort_values (v ∷ vs) =
    length-insert_sorted v (sort_values vs) ∙ ap suc (length-sort_values vs)

All-insert_sorted :
    (u v : ℤ) (ws : List ℤ) → u ≤ℤ v → All (λ w. u ≤ℤ w) ws → All (λ w. u ≤ℤ w) (insert_sorted v ws)
unfolding insert_sorted
All-insert_sorted u v [] h hs = ground arith
All-insert_sorted u v (w ∷ ws) h hs = ground (arith, All-insert_sorted u v ws)

All-le_trans : (u v : ℤ) (ws : List ℤ) → u ≤ℤ v → All (λ w. v ≤ℤ w) ws → All (λ w. u ≤ℤ w) ws
All-le_trans u v [] h hs = tt
All-le_trans u v (w ∷ ws) h hs = (omega (arith, hs.0), All-le_trans u v ws h hs.1)

insert_sorted-IsAscending :
    (v : ℤ) (ws : List ℤ) → IsAscending ws → IsAscending (insert_sorted v ws)
unfolding insert_sorted
insert_sorted-IsAscending v [] h = (tt, tt)
insert_sorted-IsAscending v (w ∷ ws) h =
    ground (arith, insert_sorted-IsAscending v ws, All-le_trans v w ws, All-insert_sorted w v ws)

sort_values-IsAscending : (vs : List ℤ) → IsAscending (sort_values vs)
unfolding sort_values
sort_values-IsAscending [] = tt
sort_values-IsAscending (v ∷ vs) =
    insert_sorted-IsAscending v (sort_values vs) (sort_values-IsAscending vs)

-- No value of a list that lies above `v` is below `v`.
count_below-All : (v : ℤ) (ws : List ℤ) → All (λ w. v ≤ℤ w) ws → count (λ w. ltb_ℤ w v) ws ≡ 0
unfolding count
count_below-All v [] h = refl
count_below-All v (w ∷ ws) h = ground (arith, count_below-All v ws)

All-get_elem? :
    (u v : ℤ) (ws : List ℤ) (i : ℕ) → All (λ w. u ≤ℤ w) ws → get_elem? ws i ≡ some v → u ≤ℤ v
All-get_elem? u v [] i h e = ground arith
All-get_elem? u v (w ∷ ws) zero h e = ground arith
All-get_elem? u v (w ∷ ws) (suc i) h e = All-get_elem? u v ws i h.1 e

-- The value at an index of an ascending list, and how many values are up to it, below it and it.
rank_at :
    (vs : List ℤ) (i : ℕ) (v : ℤ)
    → IsAscending vs
    → get_elem? vs i ≡ some v
    → (i < count (λ w. leb_ℤ w v) vs)
      × (count (λ w. ltb_ℤ w v) vs ≤ i)
      × (0 < count (λ w. eq_ℤ w v) vs)
unfolding count
rank_at [] i v h e = ground arith
rank_at (w ∷ ws) zero v h e = ground (arith, count_below-All v ws)
rank_at (w ∷ ws) (suc i) v h e = ground (arith, rank_at ws i v h.1 e, All-get_elem? w v ws i h.0 e)

get_elem?-some : (vs : List ℤ) (i : ℕ) → i < length vs → (v : ℤ) × (get_elem? vs i ≡ some v)
get_elem?-some [] i h = absurd (omega (arith, h))
get_elem?-some (v ∷ vs) zero h = (v, refl)
get_elem?-some (v ∷ vs) (suc i) h = get_elem?-some vs i (omega (arith, h))

-- `v` is the nearest rank of the percentile `p` in the values: one of them, at least `p` percent of
-- them are not above it, and fewer than `p` percent are below it.
pub record IsNearestRank (p : ℕ) (vs : List ℤ) (v : ℤ) : Type 0 where
  pub occurs : 0 < count (λ w. eq_ℤ w v) vs
  pub enough : p * length vs ≤ 100 * count (λ w. leb_ℤ w v) vs
  pub below : 100 * count (λ w. ltb_ℤ w v) vs < p * length vs

product_bounds : (p n : ℕ) → 0 < p → p ≤ 100 → 0 < n → (0 < p * n) × (p * n ≤ 100 * n)
product_bounds p n h k l = grind arith

index_bounds :
    (p n : ℕ)
    → 0 < p
    → p ≤ 100
    → 0 < n
    → let i = percentile_index (pos p) n in
      (0 < i) × (i ≤ n) × (p * n ≤ 100 * i) × (100 * i < p * n + 100)
unfolding percentile_index
index_bounds p n h k l = ground (arith, product_bounds p n h k l)

rank_of_index :
    (p : ℕ) (vs : List ℤ) (v : ℤ)
    → 0 < p
    → p ≤ 100
    → 0 < length vs
    → percentile_value (pos p) vs ≡ some v
    → IsNearestRank p vs v
unfolding percentile_value
rank_of_index p vs v h k l e =
    let i = percentile_index (pos p) (length vs) - 1 in
    let r = rank_at (sort_values vs) i v (sort_values-IsAscending vs) e in
    let b = index_bounds p (length vs) h k l in
    record {
      occurs = omega (arith, r, count-sort_values (λ w. eq_ℤ w v) vs);
      enough = omega (arith, r, b, count-sort_values (λ w. leb_ℤ w v) vs);
      below = omega (arith, r, b, count-sort_values (λ w. ltb_ℤ w v) vs);
    }

-- The index of the percentile is in range: the slice is never read past its end.
pub percentile_value-some :
    (p : ℕ) (vs : List ℤ)
    → 0 < p
    → p ≤ 100
    → 0 < length vs
    → (v : ℤ) × (percentile_value (pos p) vs ≡ some v)
unfolding percentile_value
percentile_value-some p vs h k l =
    get_elem?-some (sort_values vs) (percentile_index (pos p) (length vs) - 1)
      (omega (arith, length-sort_values vs, index_bounds p (length vs) h k l))

estimate_of_value :
    (samples : List DeadlineTelemetrySample) (value_for : DeadlineTelemetrySample → Option ℤ)
    (min_samples percentile fallback : ℤ) {v : ℤ}
    → min_samples ≤ℤ pos (length (stage_values value_for samples))
    → percentile_value percentile (stage_values value_for samples) ≡ some v
    → estimate_deadline_percentile samples value_for min_samples percentile fallback ≡ v
unfolding estimate_deadline_percentile
estimate_of_value samples value_for min_samples percentile fallback h e = rw e (ground arith)

-- With as many values of a stage as the policy asks for, at least one, the estimate at a percentile
-- from 1 to 100 is the nearest rank of that percentile in these values, and not the fallback.
pub estimate-IsNearestRank :
    (samples : List DeadlineTelemetrySample) (value_for : DeadlineTelemetrySample → Option ℤ)
    (min_samples fallback : ℤ) (p : ℕ)
    → pos 0 <ℤ min_samples
    → min_samples ≤ℤ pos (length (stage_values value_for samples))
    → 0 < p
    → p ≤ 100
    → IsNearestRank p
        (stage_values value_for samples)
        (estimate_deadline_percentile samples value_for min_samples (pos p) fallback)
estimate-IsNearestRank samples value_for min_samples fallback p m enough h k =
    let values = stage_values value_for samples in
    let (v, e) = percentile_value-some p values h k (omega (arith, m, enough)) in
    rw (estimate_of_value samples value_for min_samples (pos p) fallback enough e)
      (rank_of_index p values v h k (omega (arith, m, enough)) e)
