-- ===== src/Reconcile/Converges.antt =====
-- Where nothing failed, the workload is the one that the resource asks for (ensureDeployment and
-- ensureService of edge/operator/internal/controller/wasmfunction_controller.go).
use sertay_thesis.Prelude.{
  ◌≡◌, refl, false, Bool, Option, none, some, List, [], ◌∷◌, arith, if-cases,
}
use sertay_thesis.Prelude.Text.{String}
use sertay_thesis.Prelude.Equality.{int_eq, list_eq, pair_eq}
use sertay_thesis.Api.{WasmFunction}
use sertay_thesis.Reconcile.Workload.{
  Deployment, Service, desired_deployment, desired_service, template_eq, deployment_needs_update,
  put_deployment_spec,
}
use sertay_thesis.Reconcile.Ensure.{
  Found, absent, present, get_failed, Written, written, conflict, write_failed, Server, Ensured,
  update_spec, created, ensure_found, ensure, ensure_deployment,
}

-- The call failed, or the server holds a good object.
abbrev pub IsEnsured : {A : Type 0} → (A → Type 0) → Ensured A → Type 0
IsEnsured Good (none, none) = ⊥
IsEnsured Good (some a, none) = Good a
IsEnsured Good (o, some e) = Unit

-- What ensure leaves, where it succeeds, has what `Good` asks.
module _ {A : Type 0} (needs_update : A → A → Bool) (put_spec : A → A → A) (desired : A)
    (Good : A → Type 0) (same : Good desired) (put : (found : A) → Good (put_spec found desired))
    (current : (found : A) → needs_update found desired ≡ false → Good found) where
  update_spec-IsEnsured :
      (updates : List (Found A × Written))
      → IsEnsured Good (update_spec needs_update put_spec updates desired)
  unfolding update_spec
  update_spec-IsEnsured [] = tt
  update_spec-IsEnsured ((absent, w) ∷ updates) = tt
  update_spec-IsEnsured ((get_failed e, w) ∷ updates) = tt
  update_spec-IsEnsured ((present found, written) ∷ updates) = put found
  update_spec-IsEnsured ((present found, conflict) ∷ updates) = update_spec-IsEnsured updates
  update_spec-IsEnsured ((present found, write_failed e) ∷ updates) = tt

  created-IsEnsured : (e : Option String) → IsEnsured Good (created needs_update put_spec e desired)
  created-IsEnsured none = same
  created-IsEnsured (some e) = tt

  ensure_found-IsEnsured :
      (g : Found A) (server : Server A)
      → IsEnsured Good (ensure_found needs_update put_spec g server desired)
  unfolding ensure_found
  ensure_found-IsEnsured absent server = created-IsEnsured server.create_error
  ensure_found-IsEnsured (get_failed e) server = tt
  ensure_found-IsEnsured (present found) server =
      if-cases (IsEnsured Good) (needs_update found desired)
        (λ _. update_spec-IsEnsured server.updates) (λ fits. current found fits)

  pub ensure-IsEnsured :
      (server : Server A) → IsEnsured Good (ensure needs_update put_spec server desired)
  unfolding ensure
  ensure-IsEnsured server = ensure_found-IsEnsured server.get server

-- The Deployment runs the template and the replicas that the resource asks for.
abbrev pub RunsTemplate : WasmFunction → Deployment → Type 0
RunsTemplate wf d =
    (d.template ≡ (desired_deployment wf).template)
    × (d.replicas ≡ (desired_deployment wf).replicas)

abbrev pub RoutesPorts : WasmFunction → Service → Type 0
RoutesPorts wf s =
    (s.ports ≡ (desired_service wf).ports) × (s.selector ≡ (desired_service wf).selector)

-- A call of ensureDeployment fails, or afterwards the server holds a Deployment with the template
-- and the replicas that the resource asks for: whether it was created, updated after any number
-- of conflicts, or found as it is to be.
pub ensure_deployment_lem :
    (server : Server Deployment) (wf : WasmFunction)
    → IsEnsured (RunsTemplate wf) (ensure_deployment none server wf)
unfolding ensure_deployment deployment_needs_update put_deployment_spec
ensure_deployment_lem server wf =
    let d = desired_deployment wf in
    ensure-IsEnsured deployment_needs_update put_deployment_spec d (RunsTemplate wf) (refl, refl)
      (λ _. (refl, refl))
      (λ found fits. ground (
        arith,
        fits,
        template_eq.beq_iff found.template d.template,
        int_eq.beq_iff found.replicas d.replicas,
      ))
      server
