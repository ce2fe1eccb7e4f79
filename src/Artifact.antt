-- ===== src/Artifact.antt =====
-- Artifact synchronization (edge/operator/internal/controller/artifact_sync.go): the digest of the
-- desired release, what the edge host holds, and the upload of a release that it lacks.
pub mod Http
pub mod Reconcile
pub mod Fetch
pub mod Sync
pub mod Upload
