-- ===== src/Artifact/Fetch.antt =====
-- What fetchArtifact accepts (edge/operator/internal/controller/artifact_sync.go).
use sertay_thesis.Prelude.{◌+◌, ◌≤◌, ◌<◌, ◌≡◌, refl, arith, length, take}
use sertay_thesis.Prelude.Text.{String, text_eq_iff}
use sertay_thesis.Release.{artifact_digest_from_headers}
use sertay_thesis.Artifact.Http.{
  Bytes, Outcome, ok, err, ◌>>=◌, wrap, Response, Codec, max_artifact_download_bytes,
  refused_with_body, check_digest, check_length, read_artifact, fetch_artifact,
}

-- A body that is not empty, not too long, and has the digest that comes with it.
pub record IsVerified (codec : Codec) (f : Bytes × String) : Type 0 where
  pub digest : f.1 ≡ codec.digest_bytes f.0
  pub not_empty : 0 < length f.0
  pub bounded : length f.0 ≤ max_artifact_download_bytes

-- A bind over a wrapped error that returns has a first part that returned.
pub wrap-bind-ok :
    {A B : Type 0} (prefix : String) (m : Outcome A) (k : A → Outcome B) {b : B}
    → (wrap prefix m >>= k) ≡ ok b
    → (a : A) × (m ≡ ok a) × (k a ≡ ok b)
wrap-bind-ok prefix (ok a) k h = (a, refl, h)
wrap-bind-ok prefix (err e) k h = cc

module _ (codec : Codec) (url : String) where
  check_digest-digest :
      (r : Response) (b : Bytes) (f : Bytes × String)
      → check_digest codec url r b ≡ ok f
      → (f.0 ≡ b) × (f.1 ≡ codec.digest_bytes b)
  unfolding check_digest
  check_digest-digest r b f h = ground (
    arith,
    text_eq_iff (artifact_digest_from_headers r.x_wasm_sha256 r.etag) "",
    text_eq_iff (artifact_digest_from_headers r.x_wasm_sha256 r.etag) (codec.digest_bytes b),
  )

  check_length-IsVerified :
      (r : Response) (b : Bytes) (f : Bytes × String)
      → check_length codec url r b ≡ ok f
      → IsVerified codec f
  unfolding check_length
  check_length-IsVerified r b f h = ground (arith, check_digest-digest r b f)

  read_artifact-IsVerified :
      (r : Response) (f : Bytes × String) → read_artifact codec url r ≡ ok f → IsVerified codec f
  unfolding read_artifact
  read_artifact-IsVerified r f h =
      let (whole, _, read) = wrap-bind-ok _ r.body _ h in
      check_length-IsVerified r (take (max_artifact_download_bytes + 1) whole) f read

  -- What a download returns is not empty, at most 8 MiB long, and comes with the SHA-256 of its
  -- own bytes.
  pub fetch_artifact-IsVerified :
      (reply : Outcome Response) (f : Bytes × String)
      → fetch_artifact codec url reply ≡ ok f
      → IsVerified codec f
  unfolding fetch_artifact refused_with_body
  fetch_artifact-IsVerified reply f h =
      let (r, _, rest) = wrap-bind-ok _ reply _ h in ground (arith, read_artifact-IsVerified r f)
