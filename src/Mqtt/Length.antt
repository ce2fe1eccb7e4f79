-- ===== src/Mqtt/Length.antt =====
-- The remaining length of a packet, written and read (mqttFixedHeader of mqtt_publisher.go and
-- mqttReadRemainingLength of mqtt_telemetry.go).
use native.Mathlib.Omega.{pow_step}
use sertay_thesis.Prelude.{
  ℕ, zero, suc, ◌+◌, ◌*◌, ◌/◌, ◌%◌, ◌<◌, ◌≤◌, length, ◌^◌, ◌≡◌, ◌++◌, arith,
}
use sertay_thesis.Artifact.Http.{Bytes}
use sertay_thesis.Mqtt.{read, read_length, remaining_length_bytes, mqtt_read_remaining_length}

-- `rounds` rounds with the multiplier `m` read back a length below `bound`.
abbrev Reads : ℕ → ℕ → ℕ → Type 0
Reads rounds m bound =
    (v n fuel : ℕ) (rest : Bytes)
    → n < bound
    → n < fuel
    → read_length rounds m v (remaining_length_bytes fuel n ++ rest) ≡ read (v + n * m) rest

Reads-one : Reads 1 2097152 128
unfolding read_length remaining_length_bytes
Reads-one v n zero rest h k = ground arith
Reads-one v n (suc fuel) rest h k = ground arith

Reads-two : Reads 2 16384 16384
unfolding read_length remaining_length_bytes
Reads-two v n zero rest h k = ground arith
Reads-two v n (suc fuel) rest h k =
    ground (arith, Reads-one (v + n % 128 * 16384) (n / 128) fuel rest)

Reads-three : Reads 3 128 2097152
unfolding read_length remaining_length_bytes
Reads-three v n zero rest h k = ground arith
Reads-three v n (suc fuel) rest h k =
    ground (arith, Reads-two (v + n % 128 * 128) (n / 128) fuel rest)

Reads-four : Reads 4 1 268435456
unfolding read_length remaining_length_bytes
Reads-four v n zero rest h k = ground arith
Reads-four v n (suc fuel) rest h k =
    ground (arith, Reads-three (v + n % 128 * 1) (n / 128) fuel rest)

-- A remaining length below 2 ^ 28, which is all that four bytes hold, is read back as it was
-- written, with the bytes behind it.
pub remaining_length_roundtrip :
    (n : ℕ) (rest : Bytes)
    → n < 2 ^ 28
    → mqtt_read_remaining_length (remaining_length_bytes (suc n) n ++ rest) ≡ read n rest
unfolding mqtt_read_remaining_length
remaining_length_roundtrip n rest h = ground (arith, Reads-four 0 n (suc n) rest)

-- Two bounds on the rounds that are both more than the length give the same bytes.
rounds_agree : (f g n : ℕ) → n < f → n < g → remaining_length_bytes f n ≡ remaining_length_bytes g n
unfolding remaining_length_bytes
rounds_agree zero g n p q = ground arith
rounds_agree (suc f) zero n p q = ground arith
rounds_agree (suc f) (suc g) n p q = ground (arith, rounds_agree f g (n / 128))

power : (rounds : ℕ) → 128 ^ suc (suc rounds) ≡ 128 * 128 ^ suc rounds
power rounds = pow_step 128 (suc rounds)

bytes_within :
    (rounds fuel n : ℕ)
    → n < fuel
    → n < 128 ^ suc rounds
    → length (remaining_length_bytes fuel n) ≤ suc rounds
unfolding remaining_length_bytes
bytes_within rounds zero n p q = ground arith
bytes_within zero (suc fuel) n p q = ground arith
bytes_within (suc rounds) (suc fuel) n p q =
    let smaller : n / 128 < 128 ^ suc rounds = omega (arith, q, power rounds) in
    ground (arith, λ (l : n / 128 < fuel). bytes_within rounds fuel (n / 128) l smaller)

-- The loop that writes a remaining length ends: with more rounds than the length it writes the
-- same bytes, at least one and, for a length below 2 ^ 28, at most four.
pub remaining_length_ends :
    (n rounds : ℕ)
    → n < rounds
    → n < 2 ^ 28
    → (remaining_length_bytes rounds n ≡ remaining_length_bytes (suc n) n)
      × (1 ≤ length (remaining_length_bytes rounds n))
      × (length (remaining_length_bytes rounds n) ≤ 4)
unfolding remaining_length_bytes
remaining_length_ends n (suc rounds) p q = (
  rounds_agree (suc rounds) (suc n) n p (omega arith),
  ground arith,
  bytes_within 3 (suc rounds) n p q,
)
remaining_length_ends n zero p q = ground arith
