-- ===== src/Host/Hal.antt =====
-- The host functions that a guest imports (edge/host/hal.go). A guest is external code: it is what
-- it does, a sequence of calls with its memory at each, that ends in a result or a trap.
use sertay_thesis.Prelude.{
  Bool, true, false, ◌||◌, Option, none, some, List, length, take, drop, if◌then◌else◌,
}
use sertay_thesis.Prelude.Int.{ℤ, pos, negsuc, ltb_ℤ, pos_part, ◌+ℤ◌}
use sertay_thesis.Prelude.Text.{String}
use sertay_thesis.Prelude.Maps.{string_eq, insert}
use sertay_thesis.Artifact.Http.{Bytes}
use sertay_thesis.Host.Process.{
  Floats, ProcessRequest, resource_input_f32, resource_input_i32, resource_input_bool,
}

-- wasmBytes; the memory is nothing where the guest exports none. The int64 sum of two int32 does
-- not wrap.
unfoldable pub wasm_bytes : Option Bytes → ℤ → ℤ → Option Bytes
wasm_bytes none ptr len = none
wasm_bytes (some memory) ptr len =
    let end = ptr +ℤ len in
    if ltb_ℤ ptr (pos 0) || ltb_ℤ len (pos 0)
    then none
    else if ltb_ℤ end ptr || ltb_ℤ (pos (length memory)) end
    then none
    else some (take (pos_part len) (drop (pos_part ptr) memory))

-- The variables that the host functions read and write.
pub record Execution (F : Type 0) : Type 0 where
  pub sensor_data : ProcessRequest F
  pub output_data : List (String × F)

pub data HalCall (F : Type 0) : Type 0 where
  get_resource_f32 : ℤ → ℤ → ℤ → ℤ → HalCall F
  get_resource_i32 : ℤ → ℤ → ℤ → ℤ → HalCall F
  get_resource_bool : ℤ → ℤ → ℤ → ℤ → HalCall F
  set_output_i32 : ℤ → ℤ → ℤ → HalCall F
  set_output_f32 : ℤ → ℤ → F → HalCall F
  get_temperature : HalCall F
  get_humidity : HalCall F
  log_message : ℤ → ℤ → HalCall F

pub data HalResult (F : Type 0) : Type 0 where
  f32 : F → HalResult F
  i32 : ℤ → HalResult F
  nothing : HalResult F

pub data Guest (F : Type 0) : Type 0 where
  returns : ℤ → Guest F
  traps : String → Guest F
  calls : HalCall F → Option Bytes → (HalResult F → Guest F) → Guest F

-- The conversions that the host uses: of floats, and of bytes to the string of them.
pub record Conversions (F : Type 0) : Type 0 where
  pub floats : Floats F
  pub text : Bytes → String

-- The names of a resource and of its key, where both are in the memory.
unfoldable pub wasm_names :
    {F : Type 0} → Conversions F → Option Bytes → ℤ → ℤ → ℤ → ℤ → Option (String × String)
wasm_names cv mem rp rl kp kl = elim (wasm_bytes mem rp rl) [
  | none ↦ none
  | some resource ↦ elim (wasm_bytes mem kp kl) [
    | none ↦ none
    | some key ↦ some (cv.text resource, cv.text key)
  ]
]

abbrev pub read_or : {A : Type 0} → A → Option (String × String) → (String → String → Option A) → A
read_or missing none f = missing
read_or missing (some (resource, key)) f = elim (f resource key) [ none ↦ missing | some v ↦ v ]

abbrev pub or_missing : {A : Type 0} → A → Option A → A
or_missing missing none = missing
or_missing missing (some v) = v

abbrev pub i32_of_bool : Bool → ℤ
i32_of_bool true = pos 1
i32_of_bool false = pos 0

-- setOutputF32, where the key is in the memory.
unfoldable pub set_output :
    {F : Type 0} → Conversions F → Execution F → Option Bytes → F → Execution F
set_output cv ex none value = ex
set_output cv ex (some key) value = record ex {
  output_data = insert (cv.text key) value ex.output_data;
}

-- The functions of registerHAL; -999 stands for what is missing.
unfoldable pub hal :
    {F : Type 0}
    → Conversions F
    → Execution F
    → Option Bytes
    → HalCall F
    → HalResult F × Execution F
hal cv ex mem (get_resource_f32 rp rl kp kl) = (
  f32 (
      read_or cv.floats.missing (wasm_names cv mem rp rl kp kl)
        (resource_input_f32 cv.floats ex.sensor_data)),
  ex,
)
hal cv ex mem (get_resource_i32 rp rl kp kl) = (
  i32 (
      read_or (negsuc 998) (wasm_names cv mem rp rl kp kl)
        (resource_input_i32 cv.floats ex.sensor_data)),
  ex,
)
hal cv ex mem (get_resource_bool rp rl kp kl) = (
  i32 (
      i32_of_bool (
        read_or false (wasm_names cv mem rp rl kp kl)
          (resource_input_bool cv.floats ex.sensor_data))),
  ex,
)
hal cv ex mem (set_output_i32 kp kl value) =
    (nothing, set_output cv ex (wasm_bytes mem kp kl) (cv.floats.of_i32 value))
hal cv ex mem (set_output_f32 kp kl value) =
    (nothing, set_output cv ex (wasm_bytes mem kp kl) value)
hal cv ex mem get_temperature = (
  f32 (
      or_missing cv.floats.missing
        (resource_input_f32 cv.floats ex.sensor_data "DHT" "temperature")),
  ex,
)
hal cv ex mem get_humidity = (
  f32 (or_missing cv.floats.missing (resource_input_f32 cv.floats ex.sensor_data "DHT" "humidity")),
  ex,
)
hal cv ex mem (log_message p l) = (nothing, ex)
