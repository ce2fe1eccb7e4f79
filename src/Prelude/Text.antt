-- ===== src/Prelude/Text.antt =====
-- The functions of Go's `strings`, `strconv` and `fmt` packages that the program calls, over the
-- native texts. Case mapping is that of ASCII; white space is that of `unicode.IsSpace`.
pub mod Trim
use Prim.Native.Nat.{ℕ, suc, zero, ◌+◌, ◌-◌, ◌/◌, ◌%◌}
use Prim.Native.Char.{Char, code}
use Prim.Native.Nat.{Ordering, lt, eq, gt}
use Prim.Native.String.{◌∷◌, [], len, slice, char_at, compare}
unfoldable pub use text.Mathlib.Text.{starts_with}
use text.Mathlib.TextPositions.{eq_refl}
use mathlib.Core.Bool.{Bool, true, false, ◌&&◌, ◌||◌}
use mathlib.Core.Logic.{◌↔◌}
use mathlib.Core.Path.{◌≡◌, refl}
use text.Mathlib.Text
use text.Mathlib.TextEquality
use sertay_thesis.Prelude.Tests.{leb, ltb, ◌==◌, if◌then◌else◌}
use sertay_thesis.Prelude.Int.{ℤ, pos, negsuc}
pub use Prim.Native.String.{String, ◌++◌, len}

-- Go's `==` on strings.
abbrev pub text_eq : String → String → Bool
text_eq s t = Text.◌==◌ s t

-- Go's `<` on strings; the order of code points is the order of the bytes of UTF-8.
abbrev pub text_before : String → String → Bool
text_before s t = elim (compare s t) [ lt ↦ true | eq ↦ false | gt ↦ false ]

pub text_eq_iff : (s t : String) → (text_eq s t ≡ true) ↔ (s ≡ t)
text_eq_iff s t = TextEquality.eq_iff s t

pub text_eq_refl : (s : String) → text_eq s s ≡ true
text_eq_refl s = eq_refl s

-- unicode.IsSpace
unfoldable pub is_space : ℕ → Bool
is_space c =
    leb 9 c && leb c 13
    || c == 32
    || c == 0x85
    || c == 0xa0
    || c == 0x1680
    || leb 0x2000 c && leb c 0x200a
    || c == 0x2028
    || c == 0x2029
    || c == 0x202f
    || c == 0x205f
    || c == 0x3000

unfoldable pub trim_left : String → String
trim_left [] = ""
trim_left (c ∷ s) = let rest = trim_left s in if is_space (code c) then rest else c ∷ s

unfoldable pub trim_right : String → String
trim_right [] = ""
trim_right (c ∷ s) =
    let rest = trim_right s in if is_space (code c) && text_eq rest "" then "" else c ∷ rest

-- strings.TrimSpace
unfoldable pub trim_space : String → String
unfolding trim_left trim_right is_space
trim_space s = trim_right (trim_left s)

unfoldable pub lower_char : Char → Char
lower_char c =
    if leb 65 (code c) && leb (code c) 90
    then char_at "abcdefghijklmnopqrstuvwxyz" (code c - 65)
    else c

-- strings.ToLower
unfoldable pub to_lower : String → String
unfolding lower_char
to_lower [] = ""
to_lower (c ∷ s) = lower_char c ∷ to_lower s

-- strings.EqualFold
unfoldable pub equal_fold : String → String → Bool
unfolding to_lower
equal_fold s t = text_eq (to_lower s) (to_lower t)

-- strings.TrimPrefix
unfoldable pub trim_prefix : String → String → String
trim_prefix s prefix = if starts_with s prefix then slice s (len prefix) (len s) else s

-- strings.TrimSuffix
unfoldable pub trim_suffix : String → String → String
trim_suffix s suffix =
    if leb (len suffix) (len s) && text_eq (slice s (len s - len suffix) (len s)) suffix
    then slice s 0 (len s - len suffix)
    else s

-- Removes from the right end every character whose code is `k`: strings.TrimRight with one character.
unfoldable pub trim_right_code : ℕ → String → String
trim_right_code k [] = ""
trim_right_code k (c ∷ s) =
    let rest = trim_right_code k s in if code c == k && text_eq rest "" then "" else c ∷ rest

trim_left_code : ℕ → String → String
trim_left_code k [] = ""
trim_left_code k (c ∷ s) = let rest = trim_left_code k s in if code c == k then rest else c ∷ s

-- strings.Trim with one character
unfoldable pub trim_code : ℕ → String → String
unfolding trim_left_code trim_right_code
trim_code k s = trim_right_code k (trim_left_code k s)

-- The digits of `n` before `out`; the fuel `n + 1` is more than the number of digits.
format_digits : ℕ → ℕ → String → String
format_digits zero n out = out
format_digits (suc fuel) n out =
    let shown = char_at "0123456789" (n % 10) ∷ out in
    let rest = format_digits fuel (n / 10) shown in if ltb n 10 then shown else rest

unfoldable pub format_nat : ℕ → String
unfolding format_digits
format_nat n = format_digits (n + 1) n ""

-- `%d`
unfoldable pub format_int : ℤ → String
unfolding format_nat
format_int (pos n) = format_nat n
format_int (negsuc n) = "-" ++ format_nat (suc n)

-- `%t`
unfoldable pub format_bool : Bool → String
format_bool true = "true"
format_bool false = "false"

escape : String → String
escape [] = ""
escape (c ∷ s) =
    let rest = escape s in
    if code c == 34
    then "\\\"" ++ rest
    else if code c == 92
    then "\\\\" ++ rest
    else if code c == 9
    then "\\t" ++ rest
    else if code c == 10
    then "\\n" ++ rest
    else if code c == 13
    then "\\r" ++ rest
    else c ∷ rest

-- `%q`, for texts whose other characters are printable
unfoldable pub quote : String → String
unfolding escape
quote s = "\"" ++ escape s ++ "\""

trim_space_test : trim_space "  Edge Mode\t\n" ≡ "Edge Mode"
unfolding trim_space
trim_space_test = refl

equal_fold_test : equal_fold "DeVice" "device" ≡ true
unfolding equal_fold
equal_fold_test = refl

format_int_test : format_int (negsuc 1203) ++ format_int (pos 0) ≡ "-12040"
unfolding format_int
format_int_test = refl

quote_test : quote "a\"b" ≡ "\"a\\\"b\""
unfolding quote
quote_test = refl

trim_suffix_test : trim_suffix "http://h:80/wasm" "/wasm" ≡ "http://h:80"
unfolding trim_suffix
trim_suffix_test = refl
