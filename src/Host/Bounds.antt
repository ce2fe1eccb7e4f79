-- ===== src/Host/Bounds.antt =====
-- The bounds of a guest's memory (wasmBytes of edge/host/hal.go) and of a duration
-- (durationMillisCeil of edge/host/main.go).
use sertay_thesis.Prelude.{
  ℕ, zero, suc, ◌+◌, ◌*◌, ◌-◌, ◌≤◌, ◌<◌, ◌/◌, ◌≡◌, refl, ap, ◌↔◌, some, [], ◌∷◌, length, take, drop,
  arith, true, is_some,
}
use sertay_thesis.Prelude.Int.{ℤ, pos, ◌≤ℤ◌, pos_part, ◌+ℤ◌, wrap32_of_Int32}
use sertay_thesis.Artifact.Http.{Bytes}
use sertay_thesis.Host.Hal.{wasm_bytes}
use sertay_thesis.Host.Execution.{duration_millis_ceil}

length-drop : (n : ℕ) (xs : Bytes) → length (drop n xs) ≡ length xs - n
length-drop zero xs = ground arith
length-drop (suc n) [] = ground arith
length-drop (suc n) (x ∷ xs) = omega (arith, length-drop n xs)

length-take : (n : ℕ) (xs : Bytes) → n ≤ length xs → length (take n xs) ≡ n
length-take zero xs h = refl
length-take (suc n) [] h = omega (arith, h)
length-take (suc n) (x ∷ xs) h = ap suc (length-take n xs (omega (arith, h)))

-- Where a guest exports its memory, its bytes are given exactly where neither the pointer nor the
-- length is negative and the range ends in the memory.
pub wasm_bytes_exact :
    (memory : Bytes) (ptr len : ℤ)
    → (is_some (wasm_bytes (some memory) ptr len) ≡ true)
      ↔ ((pos 0 ≤ℤ ptr) × (pos 0 ≤ℤ len) × (pos_part ptr + pos_part len ≤ length memory))
unfolding wasm_bytes ◌+ℤ◌
wasm_bytes_exact memory ptr len = ground arith

-- The bytes that a guest gives are as many as it says.
pub wasm_bytes-length :
    (memory : Bytes) (ptr len : ℤ) {bytes : Bytes}
    → wasm_bytes (some memory) ptr len ≡ some bytes
    → pos (length bytes) ≡ len
unfolding wasm_bytes ◌+ℤ◌
wasm_bytes-length memory ptr len h = ground (
  arith,
  length-drop (pos_part ptr) memory,
  length-take (pos_part len) (drop (pos_part ptr) memory),
)

-- A duration of at most 2 ^ 31 - 1 milliseconds is rounded up to whole milliseconds.
pub duration_rounds_up :
    (n : ℕ)
    → n ≤ 2147483647000000
    → (pos n ≤ℤ pos (pos_part (duration_millis_ceil (pos n)) * 1000000))
      × (pos_part (duration_millis_ceil (pos n)) * 1000000 < n + 1000000)
unfolding duration_millis_ceil
duration_rounds_up n h =
    rw (wrap32_of_Int32 (pos ((n + 1000000 - 1) / 1000000)) (ground arith), duration_millis_ceil)
      (ground arith)
