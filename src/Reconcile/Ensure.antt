-- ===== src/Reconcile/Ensure.antt =====
-- The calls that bring the Deployment and the Service about (ensureDeployment, ensureService and
-- availableReplicasForDeployment of
-- edge/operator/internal/controller/wasmfunction_controller.go).
use sertay_thesis.Prelude.{Bool, Option, none, some, List, [], ◌∷◌, if◌then◌else◌}
use sertay_thesis.Prelude.Int.{ℤ, pos}
use sertay_thesis.Prelude.Text.{String}
use sertay_thesis.Api.{WasmFunction}
use sertay_thesis.Reconcile.Workload.{
  Deployment, Service, desired_deployment, desired_service, deployment_needs_update,
  service_needs_update, put_deployment_spec, put_service_spec,
}

-- What the API server answers to Get.
pub data Found (A : Type 0) : Type 0 where
  absent : Found A
  present : A → Found A
  get_failed : String → Found A

pub data Written : Type 0 where
  written conflict : Written
  write_failed : String → Written

-- The answers to one call of ensureDeployment or ensureService: to Get, to Create, and to the Get
-- and the Update of the runs that RetryOnConflict allows.
pub record Server (A : Type 0) : Type 0 where
  pub get : Found A
  pub create_error : Option String
  pub updates : List (Found A × Written)

-- The object that the server holds afterwards as far as the operator knows, and the error.
abbrev pub Ensured : Type 0 → Type 0
Ensured A = Option A × Option String

module _ {A : Type 0} (needs_update : A → A → Bool) (put_spec : A → A → A) where
  -- The closure that is retried reads the object again; after a conflict it runs once more.
  unfoldable pub update_spec : List (Found A × Written) → A → Ensured A
  update_spec [] desired = (none, some "conflict")
  update_spec ((absent, w) ∷ updates) desired = (none, some "not found")
  update_spec ((get_failed e, w) ∷ updates) desired = (none, some e)
  update_spec ((present found, written) ∷ updates) desired = (some (put_spec found desired), none)
  update_spec ((present found, conflict) ∷ updates) desired = update_spec updates desired
  update_spec ((present found, write_failed e) ∷ updates) desired = (none, some e)

  abbrev pub created : Option String → A → Ensured A
  created none desired = (some desired, none)
  created (some e) desired = (none, some e)

  -- What follows the first Get.
  unfoldable pub ensure_found : Found A → Server A → A → Ensured A
  ensure_found absent server desired = created server.create_error desired
  ensure_found (get_failed e) server desired = (none, some e)
  ensure_found (present found) server desired =
      if needs_update found desired then update_spec server.updates desired else (some found, none)

  unfoldable pub ensure : Server A → A → Ensured A
  ensure server desired = ensure_found server.get server desired

-- SetControllerReference comes first; its error is an argument.
unfoldable pub ensure_deployment :
    Option String → Server Deployment → WasmFunction → Ensured Deployment
ensure_deployment (some e) server wf = (none, some e)
ensure_deployment none server wf =
    ensure deployment_needs_update put_deployment_spec server (desired_deployment wf)

unfoldable pub ensure_service : Option String → Server Service → WasmFunction → Ensured Service
ensure_service (some e) server wf = (none, some e)
ensure_service none server wf =
    ensure service_needs_update put_service_spec server (desired_service wf)

-- The answer to Get of the Deployment is the number of its available replicas, or nothing.
unfoldable pub available_replicas_for_deployment : Option ℤ → ℤ
available_replicas_for_deployment none = pos 0
available_replicas_for_deployment (some available) = available
