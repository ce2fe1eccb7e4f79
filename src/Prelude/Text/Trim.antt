-- ===== src/Prelude/Text/Trim.antt =====
-- Trimming twice is trimming once, and a text without spaces or capitals is left as it is.
use Prim.Native.Char.{code}
use Prim.Native.String.{String, ◌∷◌, []}
use mathlib.Core.Bool.{◌&&◌}
use mathlib.Core.Logic.{inl, inr}
use mathlib.Core.Path.{◌≡◌, refl}
use sertay_thesis.Prelude.Tests.{Bool-cases}
use sertay_thesis.Prelude.Text.{text_eq, is_space, trim_left, trim_right, trim_space}

trim_right_idem : (s : String) → trim_right (trim_right s) ≡ trim_right s
unfolding trim_right
trim_right_idem [] = refl
trim_right_idem (c ∷ s) = elim (Bool-cases (is_space (code c) && text_eq (trim_right s) "")) [
  | inl p ↦ rw p
  | inr p ↦ rw p (rw (trim_right_idem s) (rw p))
]

-- A left-trimmed text is empty or begins with no space, and trimming its right end keeps that.
trim_left-trim_right :
    (s : String) → trim_left (trim_right (trim_left s)) ≡ trim_right (trim_left s)
unfolding trim_left trim_right
trim_left-trim_right [] = refl
trim_left-trim_right (c ∷ s) = elim (Bool-cases (is_space (code c))) [
  | inl p ↦ rw p (trim_left-trim_right s)
  | inr p ↦ rw (p, p) (rw p)
]

pub trim_space_idem : (s : String) → trim_space (trim_space s) ≡ trim_space s
unfolding trim_space
trim_space_idem s = rw (trim_left-trim_right s) (trim_right_idem (trim_left s))
