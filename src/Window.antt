-- ===== src/Window.antt =====
-- A sliding window over samples with times, as the deadline estimator and the drain tracker keep it:
-- what is older than a cutoff is dropped at every new sample.
use sertay_thesis.Prelude.{
  ◌≤◌, ◌<◌, ◌≡◌, refl, List, [], ◌∷◌, ◌++◌, arith, All, if◌then◌else◌, snoc, if-cases,
}
use sertay_thesis.Prelude.Time.{Time, before}

module _ {A : Type 0} (at : A → Time) where
  -- The loop that copies the samples from `cutoff` on to the front of the slice.
  unfoldable pub kept_since : Time → List A → List A
  kept_since cutoff [] = []
  kept_since cutoff (x ∷ xs) =
      let rest = kept_since cutoff xs in if before (at x) cutoff then rest else x ∷ rest

  pub kept_since_nil : (c : Time) → kept_since c [] ≡ []
  unfolding kept_since
  kept_since_nil c = refl

  pub kept_since-append :
      (c : Time) (xs ys : List A) → kept_since c (xs ++ ys) ≡ kept_since c xs ++ kept_since c ys
  unfolding kept_since
  kept_since-append c [] ys = refl
  kept_since-append c (x ∷ xs) ys = ground (arith, kept_since-append c xs ys)

  -- Dropping in two steps, the earlier cutoff first, is dropping once.
  pub kept_since-kept_since :
      (c d : Time) (xs : List A) → c ≤ d → kept_since d (kept_since c xs) ≡ kept_since d xs
  unfolding kept_since
  kept_since-kept_since c d [] h = refl
  kept_since-kept_since c d (x ∷ xs) h = ground (arith, kept_since-kept_since c d xs)

  -- What is kept of samples up to `last` at a cutoff after it is nothing.
  pub kept_since-late : (c : Time) (xs : List A) → All (λ x. at x < c) xs → kept_since c xs ≡ []
  unfolding kept_since
  kept_since-late c [] h = refl
  kept_since-late c (x ∷ xs) h = ground (arith, h, kept_since-late c xs)

  -- A sample from the cutoff on, at the end of the list, is kept.
  pub kept_since-snoc :
      (c : Time) (xs : List A) (x : A)
      → c ≤ at x
      → kept_since c (snoc xs x) ≡ snoc (kept_since c xs) x
  unfolding kept_since
  kept_since-snoc c [] x h = ground arith
  kept_since-snoc c (y ∷ ys) x h = ground (arith, kept_since-snoc c ys x)

  pub kept_since-All :
      (P : A → Type 0) (c : Time) (xs : List A) → All P xs → All P (kept_since c xs)
  unfolding kept_since
  kept_since-All P c [] h = tt
  kept_since-All P c (x ∷ xs) h =
      if-cases (All P) (before (at x) c) (λ _. kept_since-All P c xs h.1)
        (λ _. (h.0, kept_since-All P c xs h.1))
