-- ===== src/Api.antt =====
-- The WasmFunction resource (edge/operator/api/v1alpha1/wasmfunction_types.go): a spec, a status and
-- the part of the object's metadata that the operator reads. Pointers are options; int32 and int64
-- are integers, whose range is a hypothesis where a theorem needs it.
pub mod Spec
pub mod Status
use sertay_thesis.Prelude.Int.{ℤ}
use sertay_thesis.Prelude.Text.{String}
use sertay_thesis.Prelude.Maps.{NamespacedName}
use Spec.{WasmFunctionSpec}
use Status.{WasmFunctionStatus}

pub record WasmFunction : Type 0 where
  -- metadata
  pub namespace : String
  pub name : String
  pub generation : ℤ
  pub spec : WasmFunctionSpec
  pub status : WasmFunctionStatus

-- The key of the operator's in-memory maps.
abbrev pub key_of : WasmFunction → NamespacedName
key_of wf = record { namespace = wf.namespace; name = wf.name }
