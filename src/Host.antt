-- ===== src/Host.antt =====
-- The edge host (edge/host/main.go and hal.go): its release slots, the upload and the activation of
-- a release, the execution of a request, and the host functions that a guest calls.
pub mod State
pub mod Upload
pub mod Serve
pub mod Activate
pub mod Process
pub mod Hal
pub mod Execution
pub mod Invariant
pub mod Slots
pub mod Race
pub mod Bounds
pub mod Served
