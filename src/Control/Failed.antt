-- ===== src/Control/Failed.antt =====
-- What a publication that failed leaves (applyReleaseStage of
-- edge/operator/internal/controller/wasmfunction_controller.go).
use sertay_thesis.Prelude.{
  ◌≡◌, ◌≢◌, ◌⊎◌, List, [], ◌∷◌, ◌++◌, ◌∙◌, ◌+◌, ◌<◌, ◌≤◌, refl, sym, ap, true, false, not, ◌||◌,
  none, some, arith,
}
use std.Path.{subst}
use sertay_thesis.Prelude.Int.{ℤ, pos, leb_ℤ}
use sertay_thesis.Prelude.Text.{String, text_eq, text_eq_refl, text_eq_iff}
use sertay_thesis.Prelude.Time.{Time}
use sertay_thesis.Api.{WasmFunction, key_of}
use sertay_thesis.Release.{
  device_release_ready, device_release_staged, device_release_active, stage_command_id,
  release_delivery_state, release_stage_retry_base,
}
use sertay_thesis.Artifact.Http.{ok, err, device_artifact_url}
use sertay_thesis.Artifact.Reconcile.{ArtifactDecision}
use sertay_thesis.Control.Exec.{Command, stage_release, Control, Env, publish_control}
use sertay_thesis.Control.Stage.{
  send_in_status, last_stage_send, apply_release_stage, claim_release_stage_attempt, send_stage,
  forget_stage_sends, too_early,
}
use sertay_thesis.Control.Claim.{claim_waits, claim_of_early, IsClaimed, claimed-awaits}

-- The stage command of applyReleaseStage.
abbrev pub stage_message : WasmFunction → String → Command
stage_message wf digest =
    stage_release (stage_command_id wf digest) wf.spec.release.generation (device_artifact_url wf)
      digest wf.spec.release.function_identity wf.spec.release.resource_contract

-- The publication failed: a release is declared that the device lacks, and the attempt was claimed.
record IsFailed (env : Env) (topic : String) (a : ArtifactDecision) (s : Control) : Type 0 where
  url : text_eq (device_artifact_url s.wf) "" ≡ false
  attempt : IsClaimed env.now a s
  left :
      (apply_release_stage env topic a s).1
      ≡ record (claim_release_stage_attempt (stage_command_id s.wf a.desired_digest) env.now s).1 {
        sent = (apply_release_stage env topic a s).1.sent;
      }
  written :
      ((apply_release_stage env topic a s).1.sent ≡ s.sent)
      ⊎ ((apply_release_stage env topic a s).1.sent
          ≡ s.sent ++ (topic, stage_message s.wf a.desired_digest) ∷ [])

IsFailed-parts :
    (env : Env) (topic : String) (a : ArtifactDecision) (s : Control) {e : String}
    → device_artifact_url s.wf ≢ ""
    → (apply_release_stage env topic a s).0 ≡ err e
    → IsFailed env topic a s
unfolding apply_release_stage claim_release_stage_attempt send_stage forget_stage_sends
    publish_control
IsFailed-parts env topic a s {e} given h = record {
  url = ground (arith, text_eq_iff (device_artifact_url s.wf) "");
  attempt = record {
    declared = ground arith;
    lacking = ground (arith, text_eq_iff (device_artifact_url s.wf) "");
    claimed = ground (arith, text_eq_iff (device_artifact_url s.wf) "");
  };
  left = ground (arith, text_eq_iff (device_artifact_url s.wf) "");
  written = ground (arith, text_eq_iff (device_artifact_url s.wf) "");
}

-- The resource after a claim has the same spec and the same reports of the device.
claimed-same :
    (id digest : String) (now : Time) (s : Control)
    → let s' = (claim_release_stage_attempt id now s).1 in
      (s'.wf.spec ≡ s.wf.spec)
      × (key_of s'.wf ≡ key_of s.wf)
      × (device_release_ready s'.wf digest ≡ device_release_ready s.wf digest)
unfolding claim_release_stage_attempt device_release_ready device_release_staged
    device_release_active
claimed-same id digest now s = ground arith

-- Again within 30 seconds: nothing is claimed and nothing is sent.
again_lem :
    (env : Env) (topic : String) (a : ArtifactDecision) (s : Control)
    → (not a.enabled || text_eq a.desired_digest "" || leb_ℤ s.wf.spec.release.generation (pos 0))
      ≡ false
    → text_eq (device_artifact_url s.wf) "" ≡ false
    → device_release_ready s.wf a.desired_digest ≡ false
    → claim_release_stage_attempt (stage_command_id s.wf a.desired_digest) env.now s ≡ (ok none, s)
    → apply_release_stage env topic a s ≡ (ok false, s)
unfolding apply_release_stage send_stage
again_lem env topic a s declared url lacking claim = rw (declared, url, lacking, claim) refl

claimed-sent :
    (id : String) (now : Time) (s : Control) {n : ℤ}
    → (claim_release_stage_attempt id now s).0 ≡ ok (some n)
    → (send_in_status (claim_release_stage_attempt id now s).1.wf id).sent_at ≤ now
unfolding claim_release_stage_attempt send_in_status
claimed-sent id now s {n} h = ground (arith, text_eq_refl id)

claim-early :
    (id : String) (now : Time) (s : Control)
    → (claim_release_stage_attempt id now s).0 ≡ ok none
    → too_early (last_stage_send s id) now ≡ true
unfolding claim_release_stage_attempt
claim-early id now s h = ground arith

-- The messages that were written have no part in a claim.
claim-sent :
    (id : String) (now : Time) (s : Control) (messages : List (String × Command))
    → claim_release_stage_attempt id now s ≡ (ok none, s)
    → claim_release_stage_attempt id now (record s { sent = messages })
      ≡ (ok none, record s { sent = messages })
unfolding last_stage_send
claim-sent id now s messages h =
    claim_of_early id now (record s { sent = messages }) (claim-early id now s (ap (λ x. x.0) h))

claimed_again :
    (env env' : Env) (topic : String) (a : ArtifactDecision) (s : Control)
    (messages : List (String × Command))
    → IsFailed env topic a s
    → 0 < env.now
    → env'.now < env.now + release_stage_retry_base
    → let s' =
        record (claim_release_stage_attempt (stage_command_id s.wf a.desired_digest) env.now s).1 {
          sent = messages;
        } in
      apply_release_stage env' topic a s' ≡ (ok false, s')
unfolding stage_command_id device_artifact_url
claimed_again env env' topic a s messages f z soon =
    let id = stage_command_id s.wf a.desired_digest in
    let claim = (claim_release_stage_attempt id env.now s).1 in
    let (spec, key, ready) = claimed-same id a.desired_digest env.now s in
    again_lem env' topic a (record claim { sent = messages }) (rw spec f.attempt.declared)
      (rw spec f.url) (ready ∙ f.attempt.lacking)
      (rw spec (
        claim-sent id env'.now claim messages (
          claim_waits id env.now env'.now s claim.wf f.attempt.claimed key z
            (claimed-sent id env.now s f.attempt.claimed) soon)))

-- Where applyReleaseStage failed for a resource with a device artifact URL, which is a publication
-- that failed before or after the message was written, the delivery awaits its acknowledgement all
-- the same. From the state that this leaves, applyReleaseStage for the same artifact ends within the
-- next 30 seconds without an error, changes nothing and does not send the command: the attempt was
-- claimed, at a time other than zero, before it was published. The failed call wrote the stage
-- command once or not at all, and no other message.
pub failed_stage_waits :
    (env env' : Env) (topic : String) (a : ArtifactDecision) (s : Control) {e : String}
    → device_artifact_url s.wf ≢ ""
    → (apply_release_stage env topic a s).0 ≡ err e
    → 0 < env.now
    → env'.now < env.now + release_stage_retry_base
    → let s' = (apply_release_stage env topic a s).1 in
      ((s'.sent ≡ s.sent) ⊎ (s'.sent ≡ s.sent ++ (topic, stage_message s.wf a.desired_digest) ∷ []))
      × (release_delivery_state s'.wf a.desired_digest ≡ "AwaitingStageAck")
      × (apply_release_stage env' topic a s' ≡ (ok false, s'))
failed_stage_waits env env' topic a s {e} given failed z soon =
    let f = IsFailed-parts env topic a s {e = e} given failed in
    let again =
      claimed_again env env' topic a s (apply_release_stage env topic a s).1.sent f z soon in
    (
      f.written,
      rw f.left (claimed-awaits env.now a s f.attempt),
      subst (λ x. apply_release_stage env' topic a x ≡ (ok false, x)) (sym f.left) again,
    )
