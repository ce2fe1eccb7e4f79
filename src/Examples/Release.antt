-- ===== src/Examples/Release.antt =====
-- The release theorems at concrete digests and attempts.
use sertay_thesis.Prelude.{◌≡◌, ◌⊎◌}
use sertay_thesis.Release.{normalize_artifact_digest}
use sertay_thesis.Release.Digest.{IsDigest, normalize-IsDigest}
use sertay_thesis.Examples.Data.{digest}

normalize-IsDigest_example :
    (normalize_artifact_digest digest ≡ "") ⊎ IsDigest (normalize_artifact_digest digest)
normalize-IsDigest_example = normalize-IsDigest digest
