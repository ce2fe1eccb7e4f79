-- ===== src/Host/Process.antt =====
-- The requests of `/process`: their resource inputs and how these are read (edge/host/main.go). A
-- float32 is a value of `F`; its conversions are those of Go.
use sertay_thesis.Prelude.{ℕ, Bool, false, not, ◌||◌, ◌==◌, Option, none, some, List, if◌then◌else◌}
use sertay_thesis.Prelude.Int.{ℤ, pos, eq_ℤ}
use sertay_thesis.Prelude.Text.{String, ◌++◌, text_eq, quote}
use sertay_thesis.Prelude.Maps.{string_eq, lookup}
use sertay_thesis.Artifact.Http.{Outcome, ok, err, wrap, ◌>>=◌}

-- The parts of float32 that the host uses. `missing` is -999.0.
pub record Floats (F : Type 0) : Type 0 where
  pub of_i32 : ℤ → F
  pub to_i32 : F → ℤ
  pub zero_f32 : F
  pub one_f32 : F
  pub missing : F
  pub is_zero_f32 : F → Bool

-- ResourceInputValue
pub record ResourceInputValue (F : Type 0) : Type 0 where
  pub type_ : String
  pub f32 : F
  pub i32 : ℤ
  pub bool : Bool
  pub string : String

-- The decoded object of a resource input: its type, the bytes of its value, and what json.Unmarshal
-- makes of those in each type.
pub record RawInput (F : Type 0) : Type 0 where
  pub type_ : String
  pub value_length : ℕ
  pub as_f32 : Outcome F
  pub as_i32 : Outcome ℤ
  pub as_bool : Outcome Bool
  pub as_string : Outcome String

abbrev pub zero_value : {F : Type 0} → Floats F → ResourceInputValue F
zero_value fl = record { type_ = ""; f32 = fl.zero_f32; i32 = pos 0; bool = false; string = "" }

-- ResourceInputValue.UnmarshalJSON, into a fresh value.
unfoldable pub unmarshal_value :
    {F : Type 0} → Floats F → RawInput F → Outcome (ResourceInputValue F)
unmarshal_value fl raw =
    let v = zero_value fl in
    if text_eq raw.type_ "" || (raw.value_length == 0)
    then err "resource input requires type and value"
    else if text_eq raw.type_ "f32"
    then wrap "resource input f32 value: " raw.as_f32
      >>= (λ x. ok (record v { f32 = x; type_ = raw.type_ }))
    else if text_eq raw.type_ "i32"
    then wrap "resource input i32 value: " raw.as_i32
      >>= (λ x. ok (record v { i32 = x; type_ = raw.type_ }))
    else if text_eq raw.type_ "bool"
    then wrap "resource input bool value: " raw.as_bool
      >>= (λ x. ok (record v { bool = x; type_ = raw.type_ }))
    else if text_eq raw.type_ "string"
    then wrap "resource input string value: " raw.as_string
      >>= (λ x. ok (record v { string = x; type_ = raw.type_ }))
    else err ("unsupported resource input type " ++ quote raw.type_)

abbrev pub Inputs : Type 0 → Type 0
Inputs F = List (String × List (String × ResourceInputValue F))

-- ProcessRequest
pub record ProcessRequest (F : Type 0) : Type 0 where
  pub function : String
  pub release_generation : ℤ  -- int64
  pub source : String
  pub resource_inputs : Inputs F

-- The value of a key of a resource, where both are there.
unfoldable pub find_input :
    {F : Type 0} → ProcessRequest F → String → String → Option (ResourceInputValue F)
find_input req resource key = elim (lookup resource req.resource_inputs) [
  | none ↦ none
  | some keys ↦ lookup key keys
]

abbrev pub with_input :
    {F A : Type 0} → Option (ResourceInputValue F) → (ResourceInputValue F → Option A) → Option A
with_input none f = none
with_input (some v) f = f v

unfoldable pub value_f32 : {F : Type 0} → Floats F → ResourceInputValue F → Option F
value_f32 fl v =
    if text_eq v.type_ "f32" || text_eq v.type_ ""
    then some v.f32
    else if text_eq v.type_ "i32"
    then some (fl.of_i32 v.i32)
    else if text_eq v.type_ "bool"
    then some (if v.bool then fl.one_f32 else fl.zero_f32)
    else none

unfoldable pub value_i32 : {F : Type 0} → Floats F → ResourceInputValue F → Option ℤ
value_i32 fl v =
    if text_eq v.type_ "i32"
    then some v.i32
    else if text_eq v.type_ "f32" || text_eq v.type_ ""
    then some (fl.to_i32 v.f32)
    else if text_eq v.type_ "bool"
    then some (if v.bool then pos 1 else pos 0)
    else none

unfoldable pub value_bool : {F : Type 0} → Floats F → ResourceInputValue F → Option Bool
value_bool fl v =
    if text_eq v.type_ "bool"
    then some v.bool
    else if text_eq v.type_ "i32"
    then some (not (eq_ℤ v.i32 (pos 0)))
    else if text_eq v.type_ "f32" || text_eq v.type_ ""
    then some (not (fl.is_zero_f32 v.f32))
    else none

unfoldable pub resource_input_f32 :
    {F : Type 0} → Floats F → ProcessRequest F → String → String → Option F
resource_input_f32 fl req resource key = with_input (find_input req resource key) (value_f32 fl)

unfoldable pub resource_input_i32 :
    {F : Type 0} → Floats F → ProcessRequest F → String → String → Option ℤ
resource_input_i32 fl req resource key = with_input (find_input req resource key) (value_i32 fl)

unfoldable pub resource_input_bool :
    {F : Type 0} → Floats F → ProcessRequest F → String → String → Option Bool
resource_input_bool fl req resource key = with_input (find_input req resource key) (value_bool fl)
