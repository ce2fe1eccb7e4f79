-- ===== src/Artifact/Reconcile.antt =====
-- reconcileArtifact and artifactStatusCondition
-- (edge/operator/internal/controller/artifact_sync.go).
use sertay_thesis.Prelude.{
  Bool, true, false, not, ◌||◌, Option, none, some, List, [], if◌then◌else◌,
}
use sertay_thesis.Prelude.Int.{ℤ, pos}
use sertay_thesis.Prelude.Text.{String, ◌++◌, text_eq, trim_space, format_bool}
use sertay_thesis.Api.{WasmFunction}
use sertay_thesis.Api.Status.{Condition, condition_true, condition_false, condition_unknown}
use sertay_thesis.Release.{normalize_artifact_digest, host_release_matches, device_release_ready}
use sertay_thesis.Artifact.Http.{
  Outcome, ok, err, Codec, HostReleaseStatus, Replies, operator_artifact_url, host_wasm_url,
  fetch_artifact, fetch_artifact_digest, fetch_host_release_status, PutRequest, upload_artifact,
}

pub record ArtifactDecision : Type 0 where
  pub enabled : Bool
  pub source_url : String
  pub host_url : String
  pub desired_digest : String
  pub host_digest : String
  pub host_staged_digest : String
  pub host_active_generation : ℤ
  pub host_staged_generation : ℤ
  pub host_active_function : String
  pub host_staged_function : String
  pub updated_host : Bool

abbrev pub no_artifact : ArtifactDecision
no_artifact = record {
  enabled = false;
  source_url = "";
  host_url = "";
  desired_digest = "";
  host_digest = "";
  host_staged_digest = "";
  host_active_generation = pos 0;
  host_staged_generation = pos 0;
  host_active_function = "";
  host_staged_function = "";
  updated_host = false;
}

-- errArtifactSourceDigestTransition, or another error.
pub data SyncError : Type 0 where
  transition_pending other : String → SyncError

abbrev pub sync_message : SyncError → String
sync_message (transition_pending m) = m
sync_message (other m) = m

unfoldable pub artifact_source_digest_transition_pending : SyncError → Bool
artifact_source_digest_transition_pending (transition_pending m) = true
artifact_source_digest_transition_pending (other m) = false

-- What reconcileArtifact returns, its decision and its error, and the PUT requests that it made.
abbrev pub SyncResult : Type 0
SyncResult = ArtifactDecision × Option SyncError × List PutRequest

-- reconcileArtifact, after the requests `puts`, goes on with `next`, or returns its decision with the
-- wrapped error.
abbrev pub or_return :
    {A : Type 0}
    → ArtifactDecision
    → List PutRequest
    → String
    → Outcome A
    → (A → SyncResult)
    → SyncResult
or_return d puts prefix (ok a) next = next a
or_return d puts prefix (err m) next = (d, some (other (prefix ++ m)), puts)

-- What the host says that it holds.
unfoldable pub with_host_status : ArtifactDecision → HostReleaseStatus → ArtifactDecision
with_host_status d s = record d {
  host_digest = normalize_artifact_digest s.active_digest;
  host_staged_digest = normalize_artifact_digest s.staged_digest;
  host_active_generation = s.active_generation;
  host_staged_generation = s.staged_generation;
  host_active_function = trim_space s.active_function;
  host_staged_function = trim_space s.staged_function;
}

unfoldable pub host_ready : WasmFunction → ArtifactDecision → Bool
host_ready wf d =
    host_release_matches d.host_digest d.host_active_generation d.host_active_function wf
    || host_release_matches d.host_staged_digest d.host_staged_generation d.host_staged_function wf

-- The download and the upload for a host that lacks the release.
unfoldable pub push_artifact : Codec → WasmFunction → Replies → ArtifactDecision → SyncResult
push_artifact codec wf replies d =
    or_return d [] ("download desired artifact from " ++ d.source_url ++ ": ")
      (fetch_artifact codec d.source_url replies.get_source)
      λ fetched.
        if not (text_eq fetched.1 d.desired_digest)
        then (
          d,
          some (
              other (
                "desired artifact digest changed during sync: resolved " ++ d.desired_digest
                ++ ", downloaded " ++ fetched.1)),
          [],
        )
        else let (uploaded, puts) =
            upload_artifact codec d.host_url fetched.0 wf replies.put_host in
          or_return d puts ("upload desired artifact to host " ++ d.host_url ++ ": ") uploaded λ _.
            (
              record d {
                host_staged_digest = fetched.1;
                host_staged_generation = wf.spec.release.generation;
                host_staged_function = wf.spec.release.function_identity;
                updated_host = true;
              },
              none,
              puts,
            )

-- The part of reconcileArtifact behind the resolved digest.
unfoldable pub sync_host : Codec → WasmFunction → Replies → ArtifactDecision → SyncResult
sync_host codec wf replies d =
    or_return d [] ("probe host release status from " ++ d.host_url ++ ": ")
      (fetch_host_release_status codec d.host_url replies.get_release)
      λ status.
        let probed = with_host_status d status in
        if host_ready wf probed then (probed, none, []) else push_artifact codec wf replies probed

-- The checks of the resolved digest against the declared one.
unfoldable pub check_declared :
    Codec → WasmFunction → Replies → ArtifactDecision → String → SyncResult
check_declared codec wf replies d desired_digest =
    let declared_digest = normalize_artifact_digest wf.spec.release.artifact_digest in
    if text_eq declared_digest ""
    then (
      d,
      some (
          other
            "spec.release.artifactDigest is required when device.operatorWasmURL is configured"),
      [],
    )
    else if not (text_eq desired_digest declared_digest)
    then (
      d,
      some (
          transition_pending (
            "artifact source digest transition pending: authoritative source digest "
            ++ desired_digest ++ " does not match declared release digest " ++ declared_digest)),
      [],
    )
    else sync_host codec wf replies (record d { desired_digest = desired_digest })

unfoldable pub reconcile_artifact :
    Codec → Option (WasmFunction → String) → WasmFunction → Replies → SyncResult
reconcile_artifact codec resolver wf replies =
    let source_url = operator_artifact_url wf in
    let d = record no_artifact {
      enabled = true;
      source_url = source_url;
      host_url = host_wasm_url resolver wf;
      host_digest = normalize_artifact_digest wf.status.host_artifact_digest;
    } in
    if text_eq source_url ""
    then (no_artifact, none, [])
    else or_return d [] ("resolve desired artifact digest from " ++ source_url ++ ": ")
        (fetch_artifact_digest codec source_url replies.head_source replies.get_source_digest)
        (check_declared codec wf replies d)

abbrev pub source_missing : Condition
source_missing = record {
  type = "ArtifactSynchronized";
  status = condition_unknown;
  reason = "ArtifactSourceMissing";
  message = "device.operatorWasmURL is not configured";
}

unfoldable pub artifact_status_condition :
    WasmFunction → ArtifactDecision → Option SyncError → Condition
artifact_status_condition wf artifact (some e) =
    let pending = artifact_source_digest_transition_pending e in
    if not artifact.enabled then source_missing else record {
      type = "ArtifactSynchronized";
      status = if pending then condition_unknown else condition_false;
      reason = if pending then "SourceUpdatePending" else "SyncFailed";
      message = sync_message e;
    }
artifact_status_condition wf artifact none =
    let host = host_ready wf artifact in
    let device = device_release_ready wf artifact.desired_digest in
    if not artifact.enabled
    then source_missing
    else if not host || not device
    then record {
      type = "ArtifactSynchronized";
      status = condition_unknown;
      reason = "StagingPending";
      message =
          "release staging pending: hostReady="
          ++ format_bool host
          ++ " deviceReady="
          ++ format_bool device
          ++ " sha256="
          ++ artifact.desired_digest;
    }
    else if artifact.updated_host
    then record {
      type = "ArtifactSynchronized";
      status = condition_true;
      reason = "HostStaged";
      message = "host staged release sha256=" ++ artifact.desired_digest;
    }
    else record {
      type = "ArtifactSynchronized";
      status = condition_true;
      reason = "HostReady";
      message = "host active or staged release matches sha256=" ++ artifact.desired_digest;
    }
