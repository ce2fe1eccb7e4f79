-- ===== src/Release/Digest.antt =====
-- What normalizeArtifactDigest returns (edge/operator/internal/controller/mqtt_telemetry.go).
use Prim.Native.Char.{Char, code}
use Prim.Native.String.{String, ◌∷◌, []}
use mathlib.Core.Path.{ap₂}
use sertay_thesis.Prelude.{ℕ, ◌≡◌, ◌⊎◌, inl, inr, refl, ap, true, false, not, arith, ◌==◌, if-cases}
use sertay_thesis.Prelude.Text.{
  trim_space, trim_left, trim_right, is_space, to_lower, lower_char, len,
}
use sertay_thesis.Release.{is_hex_digit, all_hex, normalize_artifact_digest}

hex_no_space : (c : ℕ) → is_hex_digit c ≡ true → is_space c ≡ false
unfolding is_hex_digit is_space
hex_no_space c h = ground arith

hex_no_capital : (c : Char) → is_hex_digit (code c) ≡ true → lower_char c ≡ c
unfolding is_hex_digit lower_char
hex_no_capital c h = ground arith

all_hex-head : (c : Char) (s : String) → all_hex (c ∷ s) ≡ true → is_hex_digit (code c) ≡ true
unfolding all_hex
all_hex-head c s h = ground arith

all_hex-tail : (c : Char) (s : String) → all_hex (c ∷ s) ≡ true → all_hex s ≡ true
unfolding all_hex
all_hex-tail c s h = ground arith

to_lower-hex : (s : String) → all_hex s ≡ true → to_lower s ≡ s
unfolding to_lower all_hex
to_lower-hex [] h = refl
to_lower-hex (c ∷ s) h =
    ap₂ (λ (d : Char) (t : String). d ∷ t) (hex_no_capital c (all_hex-head c s h))
      (to_lower-hex s (all_hex-tail c s h))

trim_left-hex : (s : String) → all_hex s ≡ true → trim_left s ≡ s
unfolding trim_left
trim_left-hex [] h = refl
trim_left-hex (c ∷ s) h = rw (hex_no_space (code c) (all_hex-head c s h))

trim_right-hex : (s : String) → all_hex s ≡ true → trim_right s ≡ s
unfolding trim_right
trim_right-hex [] h = refl
trim_right-hex (c ∷ s) h =
    rw (hex_no_space (code c) (all_hex-head c s h))
      (ap (λ (t : String). c ∷ t) (trim_right-hex s (all_hex-tail c s h)))

trim_space-hex : (s : String) → all_hex s ≡ true → trim_space s ≡ s
unfolding trim_space
trim_space-hex s h = rw (trim_left-hex s h) (trim_right-hex s h)

-- A text of 64 hexadecimal digits in lower case.
pub record IsDigest (s : String) : Type 0 where
  pub length : len s ≡ 64
  pub hex : all_hex s ≡ true

-- A digest in normal form is left as it is.
pub normalize_of_IsDigest : (s : String) → IsDigest s → normalize_artifact_digest s ≡ s
unfolding normalize_artifact_digest
normalize_of_IsDigest s d =
    rw (trim_space-hex s d.hex) (rw (to_lower-hex s d.hex) (rw d.hex (ground (arith, d.length))))

-- What is returned is empty or 64 hexadecimal digits in lower case.
pub normalize-IsDigest :
    (s : String) → (normalize_artifact_digest s ≡ "") ⊎ IsDigest (normalize_artifact_digest s)
unfolding normalize_artifact_digest
normalize-IsDigest s =
    let t = to_lower (trim_space s) in
    if-cases (λ r. (r ≡ "") ⊎ IsDigest r) (not (len t == 64)) (λ _. inl refl)
      (λ l.
        if-cases (λ r. (r ≡ "") ⊎ IsDigest r) (all_hex t)
          (λ h. inr (record { length = ground arith; hex = h })) (λ _. inl refl))

normalize_empty : normalize_artifact_digest "" ≡ ""
unfolding normalize_artifact_digest trim_space to_lower
normalize_empty = refl

-- Normalizing twice is normalizing once.
pub normalize_idem :
    (s : String)
    → normalize_artifact_digest (normalize_artifact_digest s) ≡ normalize_artifact_digest s
normalize_idem s = elim (normalize-IsDigest s) [
  | inl p ↦ rw p normalize_empty
  | inr d ↦ normalize_of_IsDigest (normalize_artifact_digest s) d
]
