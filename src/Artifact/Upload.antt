-- ===== src/Artifact/Upload.antt =====
-- What a run of reconcileArtifact uploads
-- (edge/operator/internal/controller/artifact_sync.go).
use sertay_thesis.Prelude.{
  ◌≤◌, ◌<◌, ◌≡◌, refl, sym, ◌∙◌, Bool, true, false, not, Option, none, some, [], ◌∷◌, length,
  if-cases, not-false,
}
use sertay_thesis.Prelude.Text.{String, ◌++◌, format_int, text_eq, text_eq_iff}
use sertay_thesis.Api.{WasmFunction}
use sertay_thesis.Release.{normalize_artifact_digest}
use sertay_thesis.Artifact.Http.{
  Bytes, Outcome, ok, err, Response, is_success, Codec, Replies, PutRequest, put_request,
  read_put_reply, body_text, refused_with_body, operator_artifact_url, host_wasm_url,
  max_artifact_download_bytes, fetch_artifact, fetch_artifact_digest, fetch_host_release_status,
  upload_artifact,
}
use sertay_thesis.Artifact.Fetch.{fetch_artifact-IsVerified}
use sertay_thesis.Artifact.Reconcile.{
  ArtifactDecision, SyncError, other, SyncResult, or_return, with_host_status, host_ready,
  push_artifact, sync_host, check_declared, reconcile_artifact,
}

-- A PUT to the host of the resource: its body has the declared digest, is not empty and at most
-- 8 MiB long, and its headers name the declared digest, generation and function.
pub record IsDeclared (codec : Codec) (resolver : Option (WasmFunction → String))
    (wf : WasmFunction) (p : PutRequest) : Type 0 where
  pub target : p.url ≡ host_wasm_url resolver wf
  pub digest : codec.digest_bytes p.body ≡ normalize_artifact_digest wf.spec.release.artifact_digest
  pub not_empty : 0 < length p.body
  pub bounded : length p.body ≤ max_artifact_download_bytes
  pub digest_header : p.x_wasm_sha256 ≡ wf.spec.release.artifact_digest
  pub generation_header : p.release_generation ≡ format_int wf.spec.release.generation
  pub function_header : p.function_identity ≡ wf.spec.release.function_identity

-- The host answered with a status code in 200..299.
abbrev pub is_accepted : Outcome Response → Bool
is_accepted (ok r) = is_success r.status_code
is_accepted (err m) = false

-- How a run ends: without a PUT, and then it does not say that it updated the host; with one PUT that
-- the host did not accept, and then with an error; or with one that the host accepted, and then
-- without an error.
pub data Uploads (codec : Codec) (resolver : Option (WasmFunction → String)) (wf : WasmFunction)
    (replies : Replies) : SyncResult → Type 0 where
  silent :
      (d : ArtifactDecision) (e : Option SyncError)
      → d.updated_host ≡ false
      → Uploads codec resolver wf replies (d, e, [])
  refused :
      (d : ArtifactDecision) (e : SyncError) (p : PutRequest)
      → d.updated_host ≡ false
      → IsDeclared codec resolver wf p
      → is_accepted (replies.put_host p) ≡ false
      → Uploads codec resolver wf replies (d, some e, p ∷ [])
  accepted :
      (d : ArtifactDecision) (p : PutRequest)
      → d.updated_host ≡ true
      → IsDeclared codec resolver wf p
      → is_accepted (replies.put_host p) ≡ true
      → Uploads codec resolver wf replies (d, none, p ∷ [])

-- The answer to a PUT decides between the last two.
pub read_put_reply-is_accepted :
    (P : Outcome (Unit {0}) → Type 0) (codec : Codec) (url : String) (reply : Outcome Response)
    → (is_accepted reply ≡ true → P (ok tt))
    → ((m : String) → is_accepted reply ≡ false → P (err m))
    → P (read_put_reply codec url reply)
unfolding read_put_reply refused_with_body
read_put_reply-is_accepted P codec url (err m) took refusal = refusal _ refl
read_put_reply-is_accepted P codec url (ok r) took refusal =
    if-cases P (is_success r.status_code) took
      (λ p. if-cases P (text_eq (body_text codec r.body) "") (λ _. refusal _ p) (λ _. refusal _ p))

module _ (codec : Codec) (resolver : Option (WasmFunction → String)) (wf : WasmFunction)
    (replies : Replies) where
  abbrev Ends : SyncResult → Type 0
  Ends = Uploads codec resolver wf replies

  or_return-Uploads :
      {A : Type 0} (d : ArtifactDecision) (prefix : String) (m : Outcome A) (next : A → SyncResult)
      → d.updated_host ≡ false
      → ((a : A) → m ≡ ok a → Ends (next a))
      → Ends (or_return d [] prefix m next)
  or_return-Uploads d prefix (ok a) next u k = k a refl
  or_return-Uploads d prefix (err e) next u k = silent d _ u

  -- The target, the digest that was resolved, and that nothing was uploaded so far.
  pub record IsStarted (d : ArtifactDecision) : Type 0 where
    pub target : d.host_url ≡ host_wasm_url resolver wf
    pub desired : d.desired_digest ≡ normalize_artifact_digest wf.spec.release.artifact_digest
    pub untouched : d.updated_host ≡ false

  pub put_request-IsDeclared :
      (d : ArtifactDecision) (f : Bytes × String)
      → IsStarted d
      → fetch_artifact codec d.source_url replies.get_source ≡ ok f
      → f.1 ≡ d.desired_digest
      → IsDeclared codec resolver wf (put_request d.host_url f.0 wf)
  put_request-IsDeclared d f i got same =
      let v = fetch_artifact-IsVerified codec d.source_url replies.get_source f got in
      record {
        target = i.target;
        digest = sym v.digest ∙ (same ∙ i.desired);
        not_empty = v.not_empty;
        bounded = v.bounded;
        digest_header = refl;
        generation_header = refl;
        function_header = refl;
      }

  put-Uploads :
      (d d' : ArtifactDecision) (prefix : String) (p : PutRequest)
      → d.updated_host ≡ false
      → d'.updated_host ≡ true
      → IsDeclared codec resolver wf p
      → Ends (
          or_return d
            (p ∷ [])
            prefix
            (read_put_reply codec d.host_url (replies.put_host p))
            λ _. (d', none, p ∷ []))
  put-Uploads d d' prefix p u u' declared =
      read_put_reply-is_accepted (λ m. Ends (or_return d (p ∷ []) prefix m λ _. (d', none, p ∷ [])))
        codec d.host_url (replies.put_host p) (λ a. accepted d' p u' declared a)
        (λ m a. refused d (other (prefix ++ m)) p u declared a)

  push-Uploads : (d : ArtifactDecision) → IsStarted d → Ends (push_artifact codec wf replies d)
  unfolding push_artifact upload_artifact
  push-Uploads d i =
      or_return-Uploads d _ (fetch_artifact codec d.source_url replies.get_source) _ i.untouched
        λ f got.
          if-cases Ends (not (text_eq f.1 d.desired_digest)) (λ _. silent d _ i.untouched)
            (λ same.
              let p = put_request d.host_url f.0 wf in
              let declared =
                put_request-IsDeclared d f i got
                  ((text_eq_iff f.1 d.desired_digest).0 (not-false same)) in
              put-Uploads d _ _ p i.untouched refl declared)

  sync-Uploads : (d : ArtifactDecision) → IsStarted d → Ends (sync_host codec wf replies d)
  unfolding sync_host with_host_status
  sync-Uploads d i =
      or_return-Uploads d _ (fetch_host_release_status codec d.host_url replies.get_release) _
        i.untouched
        λ status _.
          if-cases Ends (host_ready wf (with_host_status d status))
            (λ _. silent (with_host_status d status) _ i.untouched)
            (λ _.
              push-Uploads (with_host_status d status)
                (record { target = i.target; desired = i.desired; untouched = i.untouched }))

  check-Uploads :
      (d : ArtifactDecision) (digest : String)
      → d.host_url ≡ host_wasm_url resolver wf
      → d.updated_host ≡ false
      → Ends (check_declared codec wf replies d digest)
  unfolding check_declared
  check-Uploads d digest t u =
      let declared = normalize_artifact_digest wf.spec.release.artifact_digest in
      if-cases Ends (text_eq declared "") (λ _. silent d _ u)
        (λ _.
          if-cases Ends (not (text_eq digest declared)) (λ _. silent d _ u)
            (λ same.
              sync-Uploads (record d { desired_digest = digest })
                (record {
                  target = t;
                  desired = (text_eq_iff digest declared).0 (not-false same);
                  untouched = u;
                })))

-- However the servers answer, a run makes at most one PUT. It goes to the host of the resource, its
-- body has the declared digest, is not empty and at most 8 MiB long, and its headers name the
-- declared digest, generation and function. The run says that it updated the host where the host
-- accepted the PUT, and only there, and it ends with an error where the host did not.
pub reconcile-Uploads :
    (codec : Codec) (wf : WasmFunction) (replies : Replies)
    (resolver : Option (WasmFunction → String))
    → Uploads codec resolver wf replies (reconcile_artifact codec resolver wf replies)
unfolding reconcile_artifact
reconcile-Uploads codec wf replies resolver =
    let url = operator_artifact_url wf in
    if-cases (Uploads codec resolver wf replies) (text_eq url "") (λ _. silent _ _ refl)
      (λ _.
        or_return-Uploads codec resolver wf replies _ _
          (fetch_artifact_digest codec url replies.head_source replies.get_source_digest) _ refl
          (λ digest _. check-Uploads codec resolver wf replies _ digest refl refl))
