-- ===== src/Prelude/Time.antt =====
-- Points in time and durations, in nanoseconds. A point counts from Go's zero time, the first of
-- January of the year 1, so that `IsZero` is 0; `Sub` of a later time is never reached.
use Prim.Native.Nat.{ℕ}
use mathlib.Core.Bool.{Bool}
use sertay_thesis.Prelude.Tests.{ltb, ◌==◌}
use sertay_thesis.Prelude.Int.{ℤ, sub_ℕ}

abbrev pub Time : Type 0
Time = ℕ

abbrev pub Duration : Type 0
Duration = ℕ

abbrev pub second : Duration
second = 1000000000

abbrev pub is_zero : Time → Bool
is_zero t = t == 0

abbrev pub before : Time → Time → Bool
before t u = ltb t u

abbrev pub after : Time → Time → Bool
after t u = ltb u t

-- t.Sub(u), which may be negative
abbrev pub sub : Time → Time → ℤ
sub t u = sub_ℕ t u
