-- ===== src/Reconcile/Outcomes.antt =====
-- What a run of the reconcile loop stores and returns (Reconcile of
-- edge/operator/internal/controller/wasmfunction_controller.go).
use sertay_thesis.Prelude.{
  ◌≡◌, ◌≢◌, refl, ap, ◌∙◌, true, Bool, Option, none, some, is_some, List, [], ◌∷◌, if-cases,
}
use sertay_thesis.Prelude.Int.{pos, ltb_ℤ}
use sertay_thesis.Api.{WasmFunction}
use sertay_thesis.Api.Status.{WasmFunctionStatus}
use sertay_thesis.Locality.{current_placement, apply_resource_locality}
use sertay_thesis.Placement.{PlacementDecision}
use sertay_thesis.Estimator.Snapshot.{estimate}
use sertay_thesis.Readiness.Gate.{IsReady, gated, gated-IsReady}
use sertay_thesis.Artifact.Reconcile.{SyncResult, reconcile_artifact}
use sertay_thesis.Control.Exec.{Control}
use sertay_thesis.Reconcile.Ensure.{
  available_replicas_for_deployment, present, ensure_deployment, ensure_service,
}
use sertay_thesis.Reconcile.Status.{
  Meta, ReconcileStatusUpdate, StatusAttempt, read_failed, stored, stale, write_failed,
  updated_resource, copied_status, update_status,
}
use sertay_thesis.Reconcile.Run.{
  hook_or, World, Run, with_digests, decide, finish, reconcile_release, reconcile_workload,
  reconcile,
}

-- What updateStatus stores is the update of some read resource.
update_status-cases :
    (P : Option WasmFunction → Type 0) (meta : Meta) (attempts : List StatusAttempt)
    (st : WasmFunctionStatus) (update : ReconcileStatusUpdate)
    → P none
    → ((current : WasmFunction) → P (some (updated_resource meta current st update)))
    → P (update_status meta attempts st update).0
unfolding update_status
update_status-cases P meta [] st update n s = n
update_status-cases P meta (read_failed e ∷ attempts) st update n s = n
update_status-cases P meta (stored current ∷ attempts) st update n s = s current
update_status-cases P meta (stale current ∷ attempts) st update n s =
    update_status-cases P meta attempts st update n s
update_status-cases P meta (write_failed current e ∷ attempts) st update n s = n

-- The artifact and the decision of a run that found `wf`.
abbrev pub artifact_of : World → WasmFunction → SyncResult
artifact_of w wf = reconcile_artifact w.codec w.resolver wf w.replies

abbrev pub decision_of : World → WasmFunction → PlacementDecision
decision_of w wf =
    let (artifact, error, puts) = artifact_of w wf in
    (decide w (with_digests wf artifact) artifact error).1

pub reconcile_present :
    (w : World) (c : Control) (wf : WasmFunction)
    → w.fetched ≡ present wf
    → reconcile w c ≡ reconcile_workload w c wf
unfolding reconcile
reconcile_present w c wf found = rw found refl

-- What holds of every stored resource, of which the status carries the decision of the run.
workload-cases :
    (P : Option WasmFunction → Type 0) (w : World) (c : Control) (wf : WasmFunction)
    → P none
    → ((current : WasmFunction) (st : WasmFunctionStatus) (update : ReconcileStatusUpdate)
        → update.decision ≡ decision_of w wf
        → P (some (updated_resource w.meta current st update)))
    → P (reconcile_workload w c wf).stored
unfolding reconcile_workload reconcile_release finish
workload-cases P w c wf n s =
    if-cases (λ (r : Run). P r.stored)
      (is_some (ensure_deployment w.owner_error w.deployments wf).1) (λ _. n)
      (λ _.
        if-cases (λ (r : Run). P r.stored) (is_some (ensure_service w.owner_error w.services wf).1)
          (λ _. n)
          (λ _.
            update_status-cases P w.meta w.status_attempts _ _ n (λ current. s current _ _ refl)))

pub reconcile-cases :
    (P : Option WasmFunction → Type 0) (w : World) (c : Control) (wf : WasmFunction)
    → w.fetched ≡ present wf
    → P none
    → ((current : WasmFunction) (st : WasmFunctionStatus) (update : ReconcileStatusUpdate)
        → update.decision ≡ decision_of w wf
        → P (some (updated_resource w.meta current st update)))
    → P (reconcile w c).stored
reconcile-cases P w c wf found n s =
    rw (reconcile_present w c wf found) (workload-cases P w c wf n s)

-- The runtime as the run sees it.
abbrev pub runtime_of : World → Bool
runtime_of w =
    hook_or w.edge_runtime_available (ltb_ℤ (pos 0) (available_replicas_for_deployment w.available))

-- The resource with the digests of this run.
abbrev pub noted_of : World → WasmFunction → WasmFunction
noted_of w wf = with_digests wf (artifact_of w wf).0

decision_lem :
    (w : World) (wf : WasmFunction)
    → decision_of w wf
      ≡ gated
          (noted_of w wf)
          (estimate w.estimator (noted_of w wf))
          (artifact_of w wf).0
          (runtime_of w)
unfolding decide
decision_lem w wf = refl

current_noted :
    (w : World) (wf : WasmFunction) → current_placement (noted_of w wf) ≡ current_placement wf
unfolding current_placement with_digests apply_resource_locality
current_noted w wf = refl

-- The stored status has the placement and the battery of a decision.
abbrev pub HasDecision : PlacementDecision → Option WasmFunction → Type 0
HasDecision d none = Unit
HasDecision d (some wf) =
    (wf.status.desired_placement ≡ d.desired)
    × (wf.status.observed_battery_percent ≡ d.battery_percent)

pub reconcile-HasDecision :
    (w : World) (c : Control) (wf result : WasmFunction)
    → w.fetched ≡ present wf
    → (reconcile w c).stored ≡ some result
    → HasDecision (decision_of w wf) (some result)
unfolding updated_resource copied_status
reconcile-HasDecision w c wf result found is_stored = rw is_stored at (
    reconcile-cases (HasDecision (decision_of w wf)) w c wf found tt
      (λ current st update same. (ap (λ d. d.desired) same, ap (λ d. d.battery_percent) same)))

-- A run that stores another placement than the resource had found the device with the release of
-- the run, deadline admission accepted the placement, and for edge and hybrid placement the host
-- has the release and an edge runtime is available; whatever else the cluster, the servers and
-- the broker answered.
pub reconcile_moves-IsReady :
    (w : World) (c : Control) (wf result : WasmFunction)
    → w.fetched ≡ present wf
    → (reconcile w c).stored ≡ some result
    → result.status.desired_placement ≢ current_placement wf
    → IsReady (noted_of w wf) (artifact_of w wf).0 (runtime_of w) result.status.desired_placement
      × ((decision_of w wf).deadline.accepted ≡ true)
unfolding decide
reconcile_moves-IsReady w c wf result found is_stored moved =
    let placed = (reconcile-HasDecision w c wf result found is_stored).0 in
    rw placed (
      gated-IsReady (noted_of w wf) (estimate w.estimator (noted_of w wf)) (artifact_of w wf).0
        (runtime_of w) (λ same. moved (placed ∙ same ∙ current_noted w wf)))
