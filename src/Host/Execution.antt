-- ===== src/Host/Execution.antt =====
-- The execution of a request (runWasm, currentOutputs, durationMillisCeil and handleProcess of
-- edge/host/main.go).
use sertay_thesis.Prelude.{
  ℕ, ◌+◌, ◌-◌, ◌/◌, Bool, not, ◌||◌, ◌==◌, Option, none, some, List, [], length, if◌then◌else◌,
}
use sertay_thesis.Prelude.Int.{ℤ, pos, negsuc, eq_ℤ, wrap32}
use sertay_thesis.Prelude.Text.{String, ◌++◌, text_eq, format_int}
use sertay_thesis.Artifact.Http.{Bytes, Outcome, ok, err}
use sertay_thesis.Host.State.{Host}
use sertay_thesis.Host.Process.{ProcessRequest}
use sertay_thesis.Host.Hal.{Execution, Guest, returns, traps, calls, Conversions, hal}

-- executionRelease
pub record ExecutionRelease : Type 0 where
  pub function : String
  pub generation : ℤ
  pub digest : String

-- What wasmtime makes of a module: an error of the instantiation, no export, or the guest.
pub data Instance (F : Type 0) : Type 0 where
  failed : String → Instance F
  no_export : Instance F
  exports : Guest F → Instance F

-- A call of the guest, with the host functions behind it.
unfoldable pub run_guest :
    {F : Type 0} → Conversions F → Guest F → Execution F → Outcome ℤ × Execution F
run_guest cv (returns n) ex = (ok n, ex)
run_guest cv (traps m) ex = (err m, ex)
run_guest cv (calls c mem k) ex =
    let answered = hal cv ex mem c in run_guest cv (k answered.0) answered.1

-- A duration in nanoseconds, rounded up to milliseconds and stored in an int32.
unfoldable pub duration_millis_ceil : ℤ → ℤ
duration_millis_ceil (pos n) = if n == 0 then pos 0 else wrap32 (pos ((n + 1000000 - 1) / 1000000))
duration_millis_ceil (negsuc n) = pos 0

-- currentOutputs: a nil map where nothing was set
unfoldable pub current_outputs : {F : Type 0} → List (String × F) → Option (List (String × F))
current_outputs outputs = if length outputs == 0 then none else some outputs

-- The results of runWasm; the timing and the release come with an error as well.
pub record Run (F : Type 0) : Type 0 where
  pub result : ℤ
  pub outputs : Option (List (String × F))
  pub edge_execution_ms : ℤ
  pub release : ExecutionRelease
  pub error : Option String

abbrev pub no_release : ExecutionRelease
no_release = record { function = ""; generation = pos 0; digest = "" }

abbrev pub failed_run : {F : Type 0} → ℤ → ExecutionRelease → String → Run F
failed_run ms release m = record {
  result = pos 0;
  outputs = none;
  edge_execution_ms = ms;
  release = release;
  error = some m;
}

abbrev pub active_release : {M : Type 0} → Host M → ExecutionRelease
active_release h = record {
  function = h.active_function;
  generation = h.active_generation;
  digest = h.wasm_digest;
}

-- What the request and the fresh outputs are when the guest starts.
abbrev pub fresh : {F : Type 0} → ProcessRequest F → Execution F
fresh req = record { sensor_data = req; output_data = [] }

unfoldable pub finish_run :
    {F : Type 0} → ExecutionRelease → ℤ → Outcome ℤ × Execution F → Run F × Execution F
finish_run release elapsed (err m, ex) =
    (failed_run (duration_millis_ceil elapsed) release ("process_event() trapped: " ++ m), ex)
finish_run release elapsed (ok n, ex) = (
  record {
    result = n;
    outputs = current_outputs ex.output_data;
    edge_execution_ms = duration_millis_ceil elapsed;
    release = release;
    error = none;
  },
  ex,
)

unfoldable pub run_instance :
    {F : Type 0}
    → Conversions F
    → ExecutionRelease
    → ℤ
    → ProcessRequest F
    → Instance F
    → Run F × Execution F
run_instance cv release elapsed req (failed m) =
    (failed_run (pos 0) release ("instantiate failed: " ++ m), fresh req)
run_instance cv release elapsed req no_export =
    (failed_run (pos 0) release "export 'process_event' not found in wasm module", fresh req)
run_instance cv release elapsed req (exports guest) =
    finish_run release elapsed (run_guest cv guest (fresh req))

abbrev pub mismatch : {M F : Type 0} → Host M → ProcessRequest F → String
mismatch h req =
    "release mismatch: active function="
    ++ h.active_function
    ++ " generation="
    ++ format_int h.active_generation
    ++ ", request function="
    ++ req.function
    ++ " generation="
    ++ format_int req.release_generation

-- runWasm, under the lock: `instantiate` is wasmtime's, and `elapsed` the measured time of the call.
unfoldable pub run_wasm :
    {M F : Type 0}
    → Conversions F
    → (M → Instance F)
    → ℤ
    → Host M
    → ProcessRequest F
    → Execution F
    → Run F × Execution F
run_wasm cv instantiate elapsed h req ex =
    if not (text_eq req.function h.active_function)
      || not (eq_ℤ req.release_generation h.active_generation)
    then (failed_run (pos 0) no_release (mismatch h req), ex)
    else run_instance cv (active_release h) elapsed req (instantiate h.module_)

-- ProcessResponse
pub record ProcessResponse (F : Type 0) : Type 0 where
  pub result : ℤ
  pub outputs : Option (List (String × F))
  pub timing : Option ℤ
  pub function : String
  pub release_generation : ℤ
  pub artifact_digest : String
  pub error : String

abbrev pub error_response : {F : Type 0} → String → ProcessResponse F
error_response m = record {
  result = pos 0;
  outputs = none;
  timing = none;
  function = "";
  release_generation = pos 0;
  artifact_digest = "";
  error = m;
}

-- A request of `/process`: its method, and its body read and decoded.
pub record HttpRequest (F : Type 0) : Type 0 where
  pub is_post : Bool
  pub read : Outcome Bytes
  pub decode : Bytes → Outcome (ProcessRequest F)

pub data ProcessReply (F : Type 0) : Type 0 where
  method_not_allowed : ProcessReply F
  json : ℕ → ProcessResponse F → ProcessReply F

abbrev pub response_of : {F : Type 0} → Option String → Run F → ProcessReply F
response_of (some m) run = json 500 (error_response m)
response_of none run = json 200 (record {
  result = run.result;
  outputs = run.outputs;
  timing = some run.edge_execution_ms;
  function = run.release.function;
  release_generation = run.release.generation;
  artifact_digest = run.release.digest;
  error = "";
})

abbrev pub reply_of : {F : Type 0} → Run F × Execution F → ProcessReply F × Execution F
reply_of (run, ex) = (response_of run.error run, ex)

abbrev pub decoded :
    {F : Type 0}
    → Outcome (ProcessRequest F)
    → Execution F
    → (ProcessRequest F → ProcessReply F × Execution F)
    → ProcessReply F × Execution F
decoded (err m) ex run = (json 400 (error_response ("invalid JSON: " ++ m)), ex)
decoded (ok req) ex run = run req

unfoldable pub handle_process :
    {M F : Type 0}
    → Conversions F
    → (M → Instance F)
    → ℤ
    → Host M
    → HttpRequest F
    → Execution F
    → ProcessReply F × Execution F
handle_process cv instantiate elapsed h r ex =
    if not r.is_post then (method_not_allowed, ex) else elim r.read [
      | err m ↦ (json 400 (error_response ("read body: " ++ m)), ex)
      | ok body ↦
          decoded (r.decode body) ex (λ req. reply_of (run_wasm cv instantiate elapsed h req ex))
    ]
