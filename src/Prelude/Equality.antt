-- ===== src/Prelude/Equality.antt =====
-- Boolean equality of structured values, for reflect.DeepEqual.
use mathlib.Core.Path.{◌≡◌, ap, sym, ◌∙◌}
use mathlib.Core.Logic.{◌↔◌}
use mathlib.Core.Bool.{Bool, true, false, ◌&&◌}
use mathlib.Core.List.{List, [], ◌∷◌}
use native.Mathlib.Omega.{arith}
use sertay_thesis.Prelude.Int.{ℤ, eq_ℤ}
use sertay_thesis.Prelude.Maps.{Eq}

pub eq_ℤ_iff : (a b : ℤ) → (eq_ℤ a b ≡ true) ↔ (a ≡ b)
eq_ℤ_iff a b = ground arith

instance abbrev pub int_eq : Eq ℤ
int_eq = record { beq = eq_ℤ; beq_iff = eq_ℤ_iff }

module _ {ℓ κ} {A : Type ℓ} {B : Type κ} ⦃a : Eq A⦄ ⦃b : Eq B⦄ where
  abbrev pub pair_beq : A × B → A × B → Bool
  pair_beq (x, y) (x', y') = a.beq x x' && b.beq y y'

  pub pair_beq_iff : (p q : A × B) → (pair_beq p q ≡ true) ↔ (p ≡ q)
  pair_beq_iff (x, y) (x', y') = ground (arith, a.beq_iff x x', b.beq_iff y y')

  instance abbrev pub pair_eq : Eq (A × B)
  pair_eq = record { beq = pair_beq; beq_iff = pair_beq_iff }

module _ {ℓ} {A : Type ℓ} ⦃e : Eq A⦄ where
  unfoldable pub list_beq : List A → List A → Bool
  list_beq [] [] = true
  list_beq [] (y ∷ ys) = false
  list_beq (x ∷ xs) [] = false
  list_beq (x ∷ xs) (y ∷ ys) = let rest = list_beq xs ys in e.beq x y && rest

  pub list_beq_iff : (xs ys : List A) → (list_beq xs ys ≡ true) ↔ (xs ≡ ys)
  unfolding list_beq
  list_beq_iff [] [] = ground arith
  list_beq_iff [] (y ∷ ys) = ground arith
  list_beq_iff (x ∷ xs) [] = ground arith
  list_beq_iff (x ∷ xs) (y ∷ ys) = ground (arith, e.beq_iff x y, list_beq_iff xs ys)

  instance abbrev pub list_eq : Eq (List A)
  list_eq = record { beq = list_beq; beq_iff = list_beq_iff }

-- A type whose values are told apart by a code.
module _ {ℓ κ} {A : Type ℓ} {C : Type κ} (c : Eq C) (code : A → C) (value : C → A)
    (value_code : (a : A) → value (code a) ≡ a) where
  pub coded_beq_iff : (x y : A) → (c.beq (code x) (code y) ≡ true) ↔ (x ≡ y)
  coded_beq_iff x y = (
    (λ h. sym (value_code x) ∙ ap value ((c.beq_iff (code x) (code y)).0 h) ∙ value_code y),
    (λ p. (c.beq_iff (code x) (code y)).1 (ap code p)),
  )

  abbrev pub coded_eq : Eq A
  coded_eq = record { beq = λ x y. c.beq (code x) (code y); beq_iff = coded_beq_iff }
