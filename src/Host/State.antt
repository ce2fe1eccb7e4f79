-- ===== src/Host/State.antt =====
-- The state of the edge host (the package variables of edge/host/main.go) and its replies. The
-- compiled module of wasmtime, with its engine and linker, is the type `M`.
use sertay_thesis.Prelude.{ℕ, Option, List}
use sertay_thesis.Prelude.Int.{ℤ}
use sertay_thesis.Prelude.Text.{String}
use sertay_thesis.Artifact.Http.{Bytes}

-- compiledRelease
pub record CompiledRelease (M : Type 0) : Type 0 where
  pub module_ : M
  pub digest : String
  pub generation : ℤ  -- int64
  pub function : String
  pub path : String

-- The files of the host, by path.
abbrev pub Files : Type 0
Files = List (String × Bytes)

pub record Host (M : Type 0) : Type 0 where
  pub module_ : M
  pub wasm_path : String
  pub wasm_digest : String
  pub active_generation : ℤ  -- int64
  pub active_function : String
  pub staged_release : Option (CompiledRelease M)
  pub files : Files

-- releaseStatus: zero values where nothing is staged
pub record ReleaseStatus : Type 0 where
  pub active_generation : ℤ
  pub active_digest : String
  pub active_function : String
  pub staged_generation : ℤ
  pub staged_digest : String
  pub staged_function : String

-- What a handler writes: a plain error, the JSON of a release (its status, generation, function and
-- digest; the byte count and the path aside), or the JSON of a status.
pub data Body : Type 0 where
  failure : String → Body
  release : String → ℤ → String → String → Body
  activated : ℤ → Body
  status : ReleaseStatus → Body

pub record Reply : Type 0 where
  pub code : ℕ
  pub body : Body

abbrev pub reject : ℕ → String → Reply
reject code message = record { code = code; body = failure message }
