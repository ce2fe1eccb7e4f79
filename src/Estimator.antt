-- ===== src/Estimator.antt =====
-- The estimator of stage times (edge/operator/internal/controller/deadline_estimator.go). The
-- profiles are what loadDeadlineProfilesFromEnvironment decoded, an empty map where it returns nil.
-- Samples are kept under the key namespace/name/function/mode.
pub mod Sample
pub mod Percentile
pub mod Snapshot
pub mod Record
pub mod Rank
pub mod Realistic
