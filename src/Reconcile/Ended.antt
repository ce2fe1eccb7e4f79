-- ===== src/Reconcile/Ended.antt =====
-- How a run of the reconcile loop ends (Reconcile of
-- edge/operator/internal/controller/wasmfunction_controller.go).
use sertay_thesis.Prelude.{◌≡◌, none, some}
use sertay_thesis.Prelude.Text.{String}
use sertay_thesis.Api.{WasmFunction}
use sertay_thesis.Control.Exec.{Control}
use sertay_thesis.Reconcile.Ensure.{ensure_deployment, ensure_service}
use sertay_thesis.Reconcile.Status.{stored}
use sertay_thesis.Reconcile.Run.{World, Run, stopped}
use sertay_thesis.Reconcile.Outcomes.{artifact_of, decision_of, HasDecision}

-- Both calls for the workload returned without an error.
pub record HasWorkload (w : World) (wf : WasmFunction) : Type 0 where
  pub deployed : (ensure_deployment w.owner_error w.deployments wf).1 ≡ none
  pub served : (ensure_service w.owner_error w.services wf).1 ≡ none

-- How a run that found `wf` ends, from the memory and the messages `c`.
pub data Ended (w : World) (c : Control) (wf : WasmFunction) : Run → Type 0 where
  deployment_failed :
      (e : String)
      → (ensure_deployment w.owner_error w.deployments wf).1 ≡ some e
      → Ended w c wf (stopped c (some e))
  service_failed :
      (e : String)
      → (ensure_deployment w.owner_error w.deployments wf).1 ≡ none
      → (ensure_service w.owner_error w.services wf).1 ≡ some e
      → Ended w c wf (stopped c (some e))
  status_failed :
      (r : Run) (e : String)
      → HasWorkload w wf
      → r.error ≡ some e
      → r.stored ≡ none
      → r.requeue_after ≡ none
      → r.uploads ≡ (artifact_of w wf).2
      → Ended w c wf r
  finished :
      (r : Run) (result : WasmFunction)
      → HasWorkload w wf
      → r.error ≡ none
      → r.stored ≡ some result
      → HasDecision (decision_of w wf) (some result)
      → r.uploads ≡ (artifact_of w wf).2
      → Ended w c wf r
