-- ===== src/Artifact/Sync.antt =====
-- What a run of reconcileArtifact guarantees
-- (edge/operator/internal/controller/artifact_sync.go).
use sertay_thesis.Prelude.{
  ◌≡◌, ◌≢◌, refl, ◌∙◌, true, false, not, Option, none, some, List, [], ◌∷◌, arith, if-cases,
  not-false,
}
use sertay_thesis.Prelude.Text.{String, ◌++◌, text_eq, text_eq_iff, text_eq_refl, trim_space}
use sertay_thesis.Api.{WasmFunction}
use sertay_thesis.Release.{normalize_artifact_digest, host_release_matches}
use sertay_thesis.Release.Digest.{normalize_idem}
use sertay_thesis.Artifact.Http.{
  Outcome, ok, err, Codec, HostReleaseStatus, Replies, PutRequest, put_request, read_put_reply,
  operator_artifact_url, host_wasm_url, fetch_artifact, fetch_artifact_digest,
  fetch_host_release_status, upload_artifact,
}
use sertay_thesis.Artifact.Reconcile.{
  ArtifactDecision, SyncError, other, SyncResult, or_return, with_host_status, host_ready,
  push_artifact, sync_host, check_declared, reconcile_artifact,
}
use sertay_thesis.Artifact.Upload.{
  IsDeclared, is_accepted, IsStarted, put_request-IsDeclared, read_put_reply-is_accepted,
}

-- Why the host has the release: it said so before the run, or it accepted the upload of this run.
pub data Hosted (codec : Codec) (resolver : Option (WasmFunction → String)) (wf : WasmFunction)
    (replies : Replies) : SyncResult → Type 0 where
  reported :
      (d : ArtifactDecision) (s : HostReleaseStatus)
      → fetch_host_release_status codec (host_wasm_url resolver wf) replies.get_release ≡ ok s
      → host_ready wf (with_host_status d s) ≡ true
      → Hosted codec resolver wf replies (with_host_status d s, none, [])
  uploaded :
      (d : ArtifactDecision) (p : PutRequest)
      → IsDeclared codec resolver wf p
      → is_accepted (replies.put_host p) ≡ true
      → Hosted codec resolver wf replies (d, none, p ∷ [])

-- What a run without an error leaves, for an enabled source.
pub record IsSynced (codec : Codec) (resolver : Option (WasmFunction → String)) (wf : WasmFunction)
    (replies : Replies) (r : SyncResult) : Type 0 where
  pub desired : r.0.desired_digest ≡ normalize_artifact_digest wf.spec.release.artifact_digest
  pub declared : r.0.desired_digest ≢ ""
  pub recorded : host_ready wf r.0 ≡ true
  pub hosted : Hosted codec resolver wf replies r

-- An error says nothing.
abbrev IsSyncedOrFailed :
    Codec → Option (WasmFunction → String) → WasmFunction → Replies → SyncResult → Type 0
IsSyncedOrFailed codec resolver wf replies r = r.1 ≡ none → IsSynced codec resolver wf replies r

-- The uploaded release is the declared one.
uploaded-matches :
    (wf : WasmFunction) (digest : String)
    → digest ≡ normalize_artifact_digest wf.spec.release.artifact_digest
    → host_release_matches digest wf.spec.release.generation wf.spec.release.function_identity wf
      ≡ true
unfolding host_release_matches
uploaded-matches wf digest h = rw h (
    rw (normalize_idem wf.spec.release.artifact_digest) (
      rw
        (
          text_eq_refl (normalize_artifact_digest wf.spec.release.artifact_digest),
          text_eq_refl (trim_space wf.spec.release.function_identity),
        )
        (ground arith)))

module _ (codec : Codec) (resolver : Option (WasmFunction → String)) (wf : WasmFunction)
    (replies : Replies) where
  abbrev Ends : SyncResult → Type 0
  Ends = IsSyncedOrFailed codec resolver wf replies

  failed-Ends :
      (d : ArtifactDecision) (e : SyncError) (puts : List PutRequest) → Ends (d, some e, puts)
  failed-Ends d e puts p = cc

  or_return-Ends :
      {A : Type 0} (d : ArtifactDecision) (puts : List PutRequest) (prefix : String) (m : Outcome A)
      (next : A → SyncResult)
      → ((a : A) → m ≡ ok a → Ends (next a))
      → Ends (or_return d puts prefix m next)
  or_return-Ends d puts prefix (ok a) next k = k a refl
  or_return-Ends d puts prefix (err e) next k = failed-Ends d _ puts

  put-Ends :
      (d d' : ArtifactDecision) (prefix : String) (p : PutRequest)
      → (is_accepted (replies.put_host p) ≡ true
          → IsSynced codec resolver wf replies (d', none, p ∷ []))
      → Ends (
          or_return d
            (p ∷ [])
            prefix
            (read_put_reply codec d.host_url (replies.put_host p))
            λ _. (d', none, p ∷ []))
  put-Ends d d' prefix p k =
      read_put_reply-is_accepted (λ m. Ends (or_return d (p ∷ []) prefix m λ _. (d', none, p ∷ [])))
        codec d.host_url (replies.put_host p) (λ a _. k a)
        (λ m _. failed-Ends d (other (prefix ++ m)) (p ∷ []))

  -- The resolved digest is there.
  record IsResolved (d : ArtifactDecision) : Type 0 where
    started : IsStarted codec resolver wf replies d
    declared : d.desired_digest ≢ ""

  push-Ends : (d : ArtifactDecision) → IsResolved d → Ends (push_artifact codec wf replies d)
  unfolding push_artifact host_ready upload_artifact
  push-Ends d r =
      or_return-Ends d [] _ (fetch_artifact codec d.source_url replies.get_source) _ λ f got.
        if-cases Ends (not (text_eq f.1 d.desired_digest)) (λ _. failed-Ends d _ [])
          (λ differs.
            let same = (text_eq_iff f.1 d.desired_digest).0 (not-false differs) in
            let p = put_request d.host_url f.0 wf in
            put-Ends d _ _ p (λ a. record {
              desired = r.started.desired;
              declared = r.declared;
              recorded = ground (arith, uploaded-matches wf f.1 (same ∙ r.started.desired));
              hosted =
                  uploaded _ p
                    (put_request-IsDeclared codec resolver wf replies d f r.started got same) a;
            }))

  sync-Ends : (d : ArtifactDecision) → IsResolved d → Ends (sync_host codec wf replies d)
  unfolding sync_host with_host_status
  sync-Ends d r =
      or_return-Ends d [] _ (fetch_host_release_status codec d.host_url replies.get_release) _
        λ status got.
          if-cases Ends (host_ready wf (with_host_status d status))
            (λ ready _. record {
              desired = r.started.desired;
              declared = r.declared;
              recorded = ready;
              hosted = reported d status (rw r.started.target at got) ready;
            })
            (λ _. push-Ends (with_host_status d status) (record {
              started = record {
                target = r.started.target;
                desired = r.started.desired;
                untouched = r.started.untouched;
              };
              declared = r.declared;
            }))

  check-Ends :
      (d : ArtifactDecision) (digest : String)
      → d.host_url ≡ host_wasm_url resolver wf
      → d.updated_host ≡ false
      → Ends (check_declared codec wf replies d digest)
  unfolding check_declared
  check-Ends d digest t u =
      let declared = normalize_artifact_digest wf.spec.release.artifact_digest in
      if-cases Ends (text_eq declared "") (λ _. failed-Ends d _ [])
        (λ given.
          if-cases Ends (not (text_eq digest declared)) (λ _. failed-Ends d _ [])
            (λ same.
              sync-Ends (record d { desired_digest = digest })
                (record {
                  started = record {
                    target = t;
                    desired = (text_eq_iff digest declared).0 (not-false same);
                    untouched = u;
                  };
                  declared = ground (arith, text_eq_iff digest declared, text_eq_iff declared "");
                })))

  reconcile-Ends :
      operator_artifact_url wf ≢ "" → Ends (reconcile_artifact codec resolver wf replies)
  unfolding reconcile_artifact
  reconcile-Ends given =
      let url = operator_artifact_url wf in
      if-cases Ends (text_eq url "") (λ missing. absurd (given ((text_eq_iff url "").0 missing)))
        (λ _.
          or_return-Ends _ [] _
            (fetch_artifact_digest codec url replies.head_source replies.get_source_digest) _
            (λ digest _. check-Ends _ digest refl refl))

-- A run that returns no error, for a configured source, leaves the declared digest, which is there,
-- as the desired one, and its decision has the declared release as active or staged. The host has
-- said so: either it reported the declared digest, generation and function when the run asked for
-- its status, and nothing was uploaded, or it accepted a PUT of bytes with the declared digest under
-- the declared generation and function.
pub reconcile-IsSynced :
    (codec : Codec) (wf : WasmFunction) (replies : Replies)
    (resolver : Option (WasmFunction → String))
    → operator_artifact_url wf ≢ ""
    → (reconcile_artifact codec resolver wf replies).1 ≡ none
    → IsSynced codec resolver wf replies (reconcile_artifact codec resolver wf replies)
reconcile-IsSynced codec wf replies resolver given done =
    reconcile-Ends codec resolver wf replies given done
