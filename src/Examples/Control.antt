-- ===== src/Examples/Control.antt =====
-- The theorems on the commands at a concrete resource and environment.
use sertay_thesis.Prelude.{◌≡◌, ◌≢◌, ◌⊎◌, refl, true, false, none, some, [], ◌∷◌, arith}
use sertay_thesis.Prelude.Int.{pos}
use sertay_thesis.Prelude.Text.{
  text_eq_iff, String, trim_space, equal_fold, format_int, format_bool,
}
use sertay_thesis.Prelude.Maps.{lookup}
use sertay_thesis.Api.Status.{condition_false}
use sertay_thesis.Deadline.{placement_local, placement_edge}
use sertay_thesis.Placement.{PlacementDecision, no_evaluation}
use sertay_thesis.Release.{
  release_delivery_state, is_hex_digit, all_hex, normalize_artifact_digest, device_release_staged,
  device_release_active, device_release_ready, stage_command_id, activate_local_command_id,
  runtime_edge_command_id, no_release,
}
use sertay_thesis.Artifact.Http.{err, ok, device_artifact_url}
use sertay_thesis.Control.Exec.{
  Env, unacknowledged, signal_deadline_rejection, stage_release, activate_local, set_runtime_mode,
  Control, publish_control,
}
use sertay_thesis.Control.Stage.{
  LastSend, next_attempt, last_stage_send, claim_release_stage_attempt, apply_release_stage,
  send_in_status, later_send, too_early, send_stage,
}
use sertay_thesis.Control.Failed.{stage_message, failed_stage_waits}
use sertay_thesis.Control.Claim.{claim_waits}
use sertay_thesis.Control.Policy.{
  apply_threshold_update, apply_deadline_rejection_signal, apply_battery_simulation_update,
  simulation_command_id, simulation_waits, send_simulation, update_simulation, send_thresholds,
  is_deadline_rejection, signal_once, send_signal, deadline_decision_id,
}
use sertay_thesis.Control.Pause.{
  apply_pause_command, command_awaiting_new_telemetry, send_and_record, pause_command_id,
}
use sertay_thesis.Control.Activate.{
  apply_placement_command, already_running, should_skip_placement_command,
  remember_release_activation_send, record_command, send_activate_local_command,
  host_active_matches, host_staged_matches,
}
use sertay_thesis.Control.Once.{thresholds_once, rejection_signaled_once, simulation_once}
use sertay_thesis.Control.Sends.{staged_awaits_ack, placement_command_sends}
use sertay_thesis.Examples.Data.{
  reader, staged_reader, control, env, moving_local, hosted, digest, dht_contract,
}

abbrev topic : String
topic = "sif/esp32/control"

first_claim : (claim_release_stage_attempt "stage-5" 1000000000000 control).0 ≡ ok (some (pos 1))
unfolding send_in_status later_send last_stage_send next_attempt too_early
    claim_release_stage_attempt lookup
first_claim = refl

-- Ten seconds later.
claim_waits_example :
    let s' = record (claim_release_stage_attempt "stage-5" 1000000000000 control).1 {
      wf = reader;
    } in
    claim_release_stage_attempt "stage-5" 1010000000000 s' ≡ (ok none, s')
unfolding send_in_status
claim_waits_example =
    claim_waits "stage-5" 1000000000000 1010000000000 control reader {n = pos 1} first_claim refl
      (omega arith) (omega arith) (omega arith)

abbrev never : LastSend
never = record { sent_at = 0; attempts = pos 0 }

thresholds_sent : (apply_threshold_update env topic moving_local control).0 ≡ ok true
unfolding publish_control send_thresholds apply_threshold_update
thresholds_sent = refl

thresholds_once_example :
    let s' = (apply_threshold_update env topic moving_local control).1 in
    apply_threshold_update env topic moving_local s' ≡ (ok false, s')
thresholds_once_example = thresholds_once env env topic moving_local control thresholds_sent

-- The reader on the edge host: it is to move back to the device, which is ready, but would miss its
-- deadline there.
abbrev rejected : PlacementDecision
rejected = record moving_local {
  desired = "edge";
  deadline = record no_evaluation {
    condition = some (record {
      type = "DeadlineAdmission";
      status = condition_false;
      reason = "CandidateDeadlineUnsafe";
      message = "";
    });
  };
}

abbrev prepared : Control
prepared = record control {
  wf = record reader {
    status = record reader.status { artifact_readiness_reason = "DestinationReady" };
  };
}

signaled : (apply_deadline_rejection_signal env topic rejected prepared).0 ≡ ok tt
unfolding is_deadline_rejection apply_deadline_rejection_signal signal_once send_signal
    publish_control deadline_decision_id format_int
signaled = refl

unsignaled :
    prepared.wf.status.last_signaled_deadline_decision_id
    ≢ deadline_decision_id prepared.wf rejected
unfolding deadline_decision_id format_int
unsignaled = ground (
  arith,
  text_eq_iff prepared.wf.status.last_signaled_deadline_decision_id
      (deadline_decision_id prepared.wf rejected),
)

rejection_signaled_once_example :
    let s' = (apply_deadline_rejection_signal env topic rejected prepared).1 in
    let id = deadline_decision_id prepared.wf rejected in
    (s'.sent ≡ (topic, signal_deadline_rejection id "dht-reader") ∷ [])
    × (s'.wf.status.last_signaled_deadline_decision_id ≡ id)
    × (apply_deadline_rejection_signal env topic rejected s' ≡ (ok tt, s'))
rejection_signaled_once_example =
    rejection_signaled_once env env topic rejected prepared
      (record { moving = refl; unsafe = refl; destination = refl }) unsignaled signaled

simulation_sent : (apply_battery_simulation_update env topic control).0 ≡ ok true
unfolding publish_control simulation_command_id simulation_waits send_simulation update_simulation
    apply_battery_simulation_update format_int format_bool
simulation_sent = refl

simulation_once_example :
    let s' = (apply_battery_simulation_update env topic control).1 in
    apply_battery_simulation_update env topic s' ≡ (ok false, s')
simulation_once_example = simulation_once env env topic control simulation_sent refl

paused : (apply_pause_command env topic control).0 ≡ ok tt
unfolding publish_control command_awaiting_new_telemetry send_and_record pause_command_id
    apply_pause_command format_int
paused = refl

staged : (apply_release_stage env topic hosted control).0 ≡ ok true
unfolding device_release_staged device_release_active device_release_ready device_artifact_url
    publish_control send_in_status later_send last_stage_send too_early claim_release_stage_attempt
    send_stage apply_release_stage trim_space lookup
staged = refl

staged_awaits_ack_example :
    let s' = (apply_release_stage env topic hosted control).1 in
    (s'.sent
      ≡ (
        topic,
        stage_release
            (stage_command_id reader digest)
            (pos 5)
            (device_artifact_url reader)
            digest
            "dht-reader"
            dht_contract,
      )
        ∷ [])
    × (release_delivery_state s'.wf digest ≡ "AwaitingStageAck")
staged_awaits_ack_example = staged_awaits_ack env topic hosted control staged

-- The connection breaks before the broker acknowledges the message; ten seconds later it works.
abbrev interrupted : Env
interrupted = record env { publish_error = λ _. some (unacknowledged "broken connection") }

abbrev connected : Env
connected = record env { now = 1010000000000 }

stage_failed : (apply_release_stage interrupted topic hosted control).0 ≡ err "broken connection"
unfolding device_release_staged device_release_active device_release_ready device_artifact_url
    publish_control send_in_status later_send last_stage_send too_early claim_release_stage_attempt
    send_stage apply_release_stage trim_space lookup
stage_failed = refl

failed_stage_waits_example :
    let s' = (apply_release_stage interrupted topic hosted control).1 in
    ((s'.sent ≡ []) ⊎ (s'.sent ≡ (topic, stage_message control.wf digest) ∷ []))
    × (release_delivery_state s'.wf digest ≡ "AwaitingStageAck")
    × (apply_release_stage connected topic hosted s' ≡ (ok false, s'))
unfolding device_artifact_url trim_space
failed_stage_waits_example =
    failed_stage_waits interrupted connected topic hosted control {e = "broken connection"}
      (ground (arith, text_eq_iff "http://device/dht.wasm" "")) stage_failed (omega arith)
      (omega arith)

abbrev ready : Control
ready = record control { wf = staged_reader }

commanded : (apply_placement_command env topic moving_local hosted ready).0 ≡ ok true
unfolding is_hex_digit all_hex normalize_artifact_digest device_release_staged device_release_ready
    activate_local_command_id no_release publish_control already_running
    should_skip_placement_command remember_release_activation_send record_command
    send_activate_local_command apply_placement_command trim_space equal_fold format_int lookup
commanded = refl

placement_command_sends_example :
    let s' = (apply_placement_command env topic moving_local hosted ready).1 in
    (device_release_ready staged_reader digest ≡ true)
    × (((placement_local ≡ placement_local)
          × (s'.sent
              ≡ (topic, activate_local (activate_local_command_id staged_reader) (pos 5)) ∷ []))
        ⊎ ((host_active_matches staged_reader hosted ≡ true)
            ⊎ ((host_staged_matches staged_reader hosted ≡ true) × (env.activate_error ≡ none)))
          × (s'.sent
              ≡ (
                topic,
                set_runtime_mode (runtime_edge_command_id staged_reader) placement_edge (pos 5),
              )
                ∷ []))
placement_command_sends_example =
    placement_command_sends env topic moving_local hosted ready commanded
