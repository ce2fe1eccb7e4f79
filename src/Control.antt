-- ===== src/Control.antt =====
-- The commands that the operator publishes to a device
-- (edge/operator/internal/controller/wasmfunction_controller.go). Actions that read the resource are
-- functions of it, applied to the one in the state.
pub mod Exec
pub mod Stage
pub mod Claim
pub mod Policy
pub mod Once
pub mod Sends
pub mod Failed
pub mod Pause
pub mod Activate
pub mod Apply
