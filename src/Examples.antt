-- ===== src/Examples.antt =====
-- Concrete resources, hosts and messages, and the theorems of the other modules applied to them.
mod Data
mod Deadline
mod Placement
mod Release
mod Artifact
mod Control
mod Host
mod Mqtt
mod Telemetry
mod Session
mod Estimator
mod Reconcile
