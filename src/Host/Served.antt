-- ===== src/Host/Served.antt =====
-- What a request of `/process` is answered with (runWasm and handleProcess of edge/host/main.go).
use sertay_thesis.Prelude.{ℕ, ◌≡◌, refl, ◌∙◌, not, ◌||◌, if-cases, Option, none, some, List, arith}
use sertay_thesis.Prelude.Int.{ℤ, eq_ℤ, eq_ℤ_iff}
use sertay_thesis.Prelude.Text.{text_eq, text_eq_iff}
use sertay_thesis.Artifact.Http.{Outcome, ok, err}
use sertay_thesis.Host.State.{Host}
use sertay_thesis.Host.Process.{ProcessRequest}
use sertay_thesis.Host.Hal.{
  Execution, Guest, returns, traps, calls, HalCall, get_resource_f32, get_resource_i32,
  get_resource_bool, set_output_i32, set_output_f32, get_temperature, get_humidity, log_message,
  wasm_bytes, Conversions, hal, set_output,
}
use sertay_thesis.Host.Execution.{
  Instance, failed, no_export, exports, ExecutionRelease, Run, active_release, fresh, run_guest,
  current_outputs, finish_run, run_instance, run_wasm,
}

-- Two executions of the same request do not depend on what an earlier execution left behind.
pub run_forgets :
    {M F : Type 0} (cv : Conversions F) (instantiate : M → Instance F) (elapsed : ℤ) (h : Host M)
    (req : ProcessRequest F) (ex ex' : Execution F)
    → (run_wasm cv instantiate elapsed h req ex).0 ≡ (run_wasm cv instantiate elapsed h req ex').0
unfolding run_wasm
run_forgets cv instantiate elapsed h req ex ex' = ground arith

-- The results of a run are those of the guest on the request, with fresh outputs.
pub record IsRunOf {F : Type 0} (cv : Conversions F) (g : Guest F) (req : ProcessRequest F)
    (r : Run F) : Type 0 where
  pub completed : (run_guest cv g (fresh req)).0 ≡ ok r.result
  pub outputs : r.outputs ≡ current_outputs (run_guest cv g (fresh req)).1.output_data

finish_run-ok :
    {F : Type 0} (cv : Conversions F) (r : ExecutionRelease) (elapsed : ℤ) (g : Guest F)
    (req : ProcessRequest F) (x : Outcome ℤ × Execution F)
    → run_guest cv g (fresh req) ≡ x
    → (finish_run r elapsed x).0.error ≡ none
    → IsRunOf cv g req (finish_run r elapsed x).0 × ((finish_run r elapsed x).0.release ≡ r)
unfolding finish_run
finish_run-ok cv r elapsed g req (ok n, ex) same e =
    (record { completed = rw same refl; outputs = rw same refl }, refl)
finish_run-ok cv r elapsed g req (err m, ex) same e = cc

run_instance-ok :
    {F : Type 0} (cv : Conversions F) (r : ExecutionRelease) (elapsed : ℤ) (req : ProcessRequest F)
    (i : Instance F)
    → (run_instance cv r elapsed req i).0.error ≡ none
    → (g : Guest F) × (i ≡ exports g)
      × IsRunOf cv g req (run_instance cv r elapsed req i).0
      × ((run_instance cv r elapsed req i).0.release ≡ r)
unfolding run_instance
run_instance-ok cv r elapsed req (failed m) e = cc
run_instance-ok cv r elapsed req no_export e = cc
run_instance-ok cv r elapsed req (exports guest) e =
    let (done, same) = finish_run-ok cv r elapsed guest req _ refl e in (guest, refl, done, same)

-- A request that is answered without an error ran the guest of the active module: its result and its
-- outputs are those of that guest on this request, from no outputs. The release that is reported is
-- the active one, which the request names.
pub run_release :
    {M F : Type 0} (cv : Conversions F) (instantiate : M → Instance F) (elapsed : ℤ) (h : Host M)
    (req : ProcessRequest F) (ex : Execution F)
    → (run_wasm cv instantiate elapsed h req ex).0.error ≡ none
    → let run = (run_wasm cv instantiate elapsed h req ex).0 in
      (g : Guest F) × (instantiate h.module_ ≡ exports g)
      × IsRunOf cv g req run
      × (run.release ≡ active_release h)
      × (req.function ≡ h.active_function)
      × (req.release_generation ≡ h.active_generation)
unfolding run_wasm
run_release {M = M} {F = F} cv instantiate elapsed h req ex e =
    if-cases
      (λ (x : Run F × Execution F).
        x.0.error ≡ none
        → (g : Guest F) × (instantiate h.module_ ≡ exports g)
          × IsRunOf cv g req x.0
          × (x.0.release ≡ active_release h)
          × (req.function ≡ h.active_function)
          × (req.release_generation ≡ h.active_generation))
      (not (text_eq req.function h.active_function)
        || not (eq_ℤ req.release_generation h.active_generation))
      (λ _ e. cc)
      (λ p e.
        let (g, i, done, same) =
          run_instance-ok cv (active_release h) elapsed req (instantiate h.module_) e in
        (
          g,
          i,
          done,
          same,
          ground (arith, text_eq_iff req.function h.active_function),
          ground (arith, eq_ℤ_iff req.release_generation h.active_generation),
        ))
      e

set_output-sensor :
    {F : Type 0} (cv : Conversions F) (ex : Execution F) (key : Option (List ℕ)) (v : F)
    → (set_output cv ex key v).sensor_data ≡ ex.sensor_data
unfolding set_output
set_output-sensor cv ex none v = refl
set_output-sensor cv ex (some key) v = refl

hal-sensor :
    {F : Type 0} (cv : Conversions F) (ex : Execution F) (mem : Option (List ℕ)) (c : HalCall F)
    → (hal cv ex mem c).1.sensor_data ≡ ex.sensor_data
unfolding hal
hal-sensor cv ex mem (get_resource_f32 rp rl kp kl) = refl
hal-sensor cv ex mem (get_resource_i32 rp rl kp kl) = refl
hal-sensor cv ex mem (get_resource_bool rp rl kp kl) = refl
hal-sensor cv ex mem (set_output_i32 kp kl v) =
    set_output-sensor cv ex (wasm_bytes mem kp kl) (cv.floats.of_i32 v)
hal-sensor cv ex mem (set_output_f32 kp kl v) = set_output-sensor cv ex (wasm_bytes mem kp kl) v
hal-sensor cv ex mem get_temperature = refl
hal-sensor cv ex mem get_humidity = refl
hal-sensor cv ex mem (log_message p l) = refl

-- Whatever a guest does, the request that its host functions read stays the same.
pub guest_keeps_request :
    {F : Type 0} (cv : Conversions F) (g : Guest F) (ex : Execution F)
    → (run_guest cv g ex).1.sensor_data ≡ ex.sensor_data
unfolding run_guest
guest_keeps_request cv (returns n) ex = refl
guest_keeps_request cv (traps m) ex = refl
guest_keeps_request cv (calls c mem k) ex =
    guest_keeps_request cv (k (hal cv ex mem c).0) (hal cv ex mem c).1 ∙ hal-sensor cv ex mem c
