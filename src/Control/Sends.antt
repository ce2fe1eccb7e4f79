-- ===== src/Control/Sends.antt =====
-- What a run publishes (applyReleaseStage and applyPlacementCommand of
-- edge/operator/internal/controller/wasmfunction_controller.go).
use sertay_thesis.Prelude.{◌≡◌, ◌⊎◌, refl, Bool, true, not, ◌||◌, none, some, [], ◌∷◌, ◌++◌, arith}
use sertay_thesis.Prelude.Text.{String, text_eq_iff}
use sertay_thesis.Prelude.Time.{Time}
use sertay_thesis.Prelude.Maps.{namespaced_name_eq}
use sertay_thesis.Api.{WasmFunction}
use sertay_thesis.Deadline.{placement_local, placement_edge}
use sertay_thesis.Placement.{PlacementDecision}
use sertay_thesis.Release.{
  device_release_ready, stage_command_id, release_delivery_state, activate_local_command_id,
  runtime_edge_command_id,
}
use sertay_thesis.Artifact.Http.{ok, device_artifact_url}
use sertay_thesis.Artifact.Reconcile.{ArtifactDecision}
use sertay_thesis.Control.Exec.{
  stage_release, activate_local, set_runtime_mode, Control, Env, ◌>>=◌, publish_control,
}
use sertay_thesis.Control.Stage.{
  apply_release_stage, claim_release_stage_attempt, send_stage, forget_stage_sends,
}
use sertay_thesis.Control.Claim.{IsClaimed, claimed-awaits}
use sertay_thesis.Control.Activate.{
  should_skip_placement_command, send_activate_local_command, send_runtime_mode_command,
  remember_release_activation_send, record_command, activate_host, command_edge,
  host_active_matches, host_staged_matches, apply_placement_command,
}

staged-sent :
    (env : Env) (topic : String) (a : ArtifactDecision) (s : Control)
    → (apply_release_stage env topic a s).0 ≡ ok true
    → (apply_release_stage env topic a s).1.sent
      ≡ s.sent
        ++ (
          topic,
          stage_release
              (stage_command_id s.wf a.desired_digest)
              s.wf.spec.release.generation
              (device_artifact_url s.wf)
              a.desired_digest
              s.wf.spec.release.function_identity
              s.wf.spec.release.resource_contract,
        )
          ∷ []
unfolding apply_release_stage claim_release_stage_attempt send_stage forget_stage_sends
    publish_control
staged-sent env topic a s h = ground arith

-- What a published stage command says of the resource: a release is declared that the device lacks,
-- and the status is that of the claim.
record IsStaged (env : Env) (topic : String) (a : ArtifactDecision) (s : Control) : Type 0 where
  attempt : IsClaimed env.now a s
  kept :
      (apply_release_stage env topic a s).1.wf
      ≡ (claim_release_stage_attempt (stage_command_id s.wf a.desired_digest) env.now s).1.wf

IsStaged-parts :
    (env : Env) (topic : String) (a : ArtifactDecision) (s : Control)
    → (apply_release_stage env topic a s).0 ≡ ok true
    → IsStaged env topic a s
unfolding apply_release_stage claim_release_stage_attempt send_stage forget_stage_sends
    publish_control
IsStaged-parts env topic a s h = record {
  attempt = record { declared = ground arith; lacking = ground arith; claimed = ground arith };
  kept = ground arith;
}

-- A published stage command is the one new message, and the delivery then awaits its
-- acknowledgement.
pub staged_awaits_ack :
    (env : Env) (topic : String) (a : ArtifactDecision) (s : Control)
    → (apply_release_stage env topic a s).0 ≡ ok true
    → let s' = (apply_release_stage env topic a s).1 in
      (s'.sent
        ≡ s.sent
          ++ (
            topic,
            stage_release
                (stage_command_id s.wf a.desired_digest)
                s.wf.spec.release.generation
                (device_artifact_url s.wf)
                a.desired_digest
                s.wf.spec.release.function_identity
                s.wf.spec.release.resource_contract,
          )
            ∷ [])
      × (release_delivery_state s'.wf a.desired_digest ≡ "AwaitingStageAck")
staged_awaits_ack env topic a s h =
    let i = IsStaged-parts env topic a s h in
    (staged-sent env topic a s h, rw i.kept (claimed-awaits env.now a s i.attempt))

skip-keeps :
    (id desired mode digest : String) (now : Time) (s : Control)
    → ((should_skip_placement_command id desired mode digest now s).1.sent ≡ s.sent)
      × ((should_skip_placement_command id desired mode digest now s).1.wf ≡ s.wf)
unfolding should_skip_placement_command
skip-keeps id desired mode digest now s = ground arith

send_local-sent :
    (env : Env) (wf : WasmFunction) (topic : String) (track : Bool) (s : Control)
    → (send_activate_local_command env wf topic track s).0 ≡ ok true
    → (send_activate_local_command env wf topic track s).1.sent
      ≡ s.sent
        ++ (topic, activate_local (activate_local_command_id wf) wf.spec.release.generation) ∷ []
unfolding send_activate_local_command remember_release_activation_send publish_control
    record_command
send_local-sent env wf topic track s h = ground arith

send_edge-sent :
    (env : Env) (wf : WasmFunction) (topic : String) (d : PlacementDecision) (track : Bool)
    (s : Control)
    → (send_runtime_mode_command env wf topic d track s).0 ≡ ok true
    → (send_runtime_mode_command env wf topic d track s).1.sent
      ≡ s.sent
        ++ (
          topic,
          set_runtime_mode (runtime_edge_command_id wf) placement_edge wf.spec.release.generation,
        )
          ∷ []
unfolding send_runtime_mode_command remember_release_activation_send publish_control record_command
send_edge-sent env wf topic d track s h = ground arith

command_edge-sent :
    (env : Env) (wf : WasmFunction) (topic : String) (d : PlacementDecision) (track : Bool)
    (a : ArtifactDecision) (s : Control)
    → (command_edge env wf topic d track a s).0 ≡ ok true
    → (host_active_matches wf a ≡ true)
      × ((command_edge env wf topic d track a s).1.sent
          ≡ s.sent
            ++ (
              topic,
              set_runtime_mode
                  (runtime_edge_command_id wf)
                  placement_edge
                  wf.spec.release.generation,
            )
              ∷ [])
unfolding command_edge
command_edge-sent env wf topic d track a s h =
    let id = runtime_edge_command_id wf in
    let r = should_skip_placement_command id d.desired placement_edge a.desired_digest env.now s in
    ground (
      arith,
      skip-keeps id d.desired placement_edge a.desired_digest env.now s,
      send_edge-sent env wf topic d track r.1,
    )

activated-sent :
    (env : Env) (wf : WasmFunction) (topic : String) (d : PlacementDecision) (track : Bool)
    (a : ArtifactDecision) (s : Control)
    → ((activate_host env wf a >>= command_edge env wf topic d track) s).0 ≡ ok true
    → (env.activate_error ≡ none)
      × (((activate_host env wf a >>= command_edge env wf topic d track) s).1.sent
          ≡ s.sent
            ++ (
              topic,
              set_runtime_mode
                  (runtime_edge_command_id wf)
                  placement_edge
                  wf.spec.release.generation,
            )
              ∷ [])
unfolding activate_host
activated-sent env wf topic d track a s =
    elim env.activate_error
      as (λ error.
        let env' = record env { activate_error = error } in
        ((activate_host env' wf a >>= command_edge env' wf topic d track) s).0 ≡ ok true
        → (env'.activate_error ≡ none)
          × (((activate_host env' wf a >>= command_edge env' wf topic d track) s).1.sent
              ≡ s.sent
                ++ (
                  topic,
                  set_runtime_mode (runtime_edge_command_id wf) placement_edge
                      wf.spec.release.generation,
                )
                  ∷ [])) [
                    | none ↦ λ h. (refl, (command_edge-sent _ wf topic d track _ _ h).1)
                    | some m ↦ λ h. cc
                  ]

-- A placement command is published only for a release that the device holds. For the local
-- placement the one new message activates the release on the device; for any other it sets the
-- runtime mode, and the host holds the release active, or held it staged and has activated it.
pub placement_command_sends :
    (env : Env) (topic : String) (d : PlacementDecision) (a : ArtifactDecision) (s : Control)
    → (apply_placement_command env topic d a s).0 ≡ ok true
    → let s' = (apply_placement_command env topic d a s).1 in
      (device_release_ready s.wf a.desired_digest ≡ true)
      × (((d.desired ≡ placement_local)
            × (s'.sent
                ≡ s.sent
                  ++ (
                    topic,
                    activate_local (activate_local_command_id s.wf) s.wf.spec.release.generation,
                  )
                    ∷ []))
          ⊎ ((host_active_matches s.wf a ≡ true)
              ⊎ ((host_staged_matches s.wf a ≡ true) × (env.activate_error ≡ none)))
            × (s'.sent
                ≡ s.sent
                  ++ (
                    topic,
                    set_runtime_mode
                        (runtime_edge_command_id s.wf)
                        placement_edge
                        s.wf.spec.release.generation,
                  )
                    ∷ []))
unfolding apply_placement_command
placement_command_sends env topic d a s h =
    let wf = s.wf in
    let track = not d.transition || d.deadline.accepted in
    let id = activate_local_command_id wf in
    let r = should_skip_placement_command id d.desired placement_local a.desired_digest env.now s in
    ground (
      arith,
      text_eq_iff d.desired placement_local,
      skip-keeps id d.desired placement_local a.desired_digest env.now s,
      send_local-sent env wf topic track r.1,
      command_edge-sent env wf topic d track a s,
      activated-sent env wf topic d track a s,
    )
