-- ===== src/Reconcile.antt =====
-- The reconcile loop of the operator: the workload of a resource, its status, the time of the next
-- run, and the run itself (edge/operator/internal/controller/wasmfunction_controller.go).
pub mod Workload
pub mod Ensure
pub mod Status
pub mod Requeue
pub mod Run
pub mod Converges
pub mod Backoff
pub mod Battery
pub mod Outcomes
pub mod Ended
