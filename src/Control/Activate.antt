-- ===== src/Control/Activate.antt =====
-- applyPlacementCommand, shouldSkipPlacementCommand and the two activation commands
-- (edge/operator/internal/controller/wasmfunction_controller.go, and activateHostRelease of
-- artifact_sync.go, whose reply is `Env.activate_error`).
use sertay_thesis.Prelude.{
  ◌+◌, Bool, true, false, not, ◌&&◌, ◌||◌, Option, none, some, if◌then◌else◌,
}
use sertay_thesis.Prelude.Int.{pos, eq_ℤ}
use sertay_thesis.Prelude.Text.{String, text_eq}
use sertay_thesis.Prelude.Time.{Time, is_zero, before, after}
use sertay_thesis.Prelude.Maps.{namespaced_name_eq, lookup, insert, delete}
use sertay_thesis.Api.{WasmFunction, key_of}
use sertay_thesis.Deadline.{placement_local, placement_edge}
use sertay_thesis.Placement.{PlacementDecision, runtime_mode_for_placement}
use sertay_thesis.Release.{
  normalize_artifact_digest, host_release_matches, device_release_ready, no_release,
  activate_local_command_id, runtime_edge_command_id, release_stage_retry_base,
}
use sertay_thesis.Artifact.Http.{Outcome, ok}
use sertay_thesis.Artifact.Reconcile.{ArtifactDecision}
use sertay_thesis.Control.Exec.{
  activate_local, set_runtime_mode, ReleaseActivationSendState, Control, Env, Exec, ◌>>=◌, ◌>>◌,
  pure, raise, set_status, publish_control,
}

-- The device runs the release in the mode already.
unfoldable pub already_running : WasmFunction → String → String → Bool
already_running wf runtime_mode digest =
    text_eq wf.status.observed_mode runtime_mode
    && eq_ℤ wf.status.acknowledged_release_generation wf.spec.release.generation
    && text_eq (normalize_artifact_digest wf.status.observed_artifact_digest) digest

-- When this command was sent last, as far as the operator remembers.
abbrev pub remembered_send : Option ReleaseActivationSendState → String → Option Time
remembered_send none command_id = none
remembered_send (some r) command_id =
    if text_eq r.command_id command_id then some r.sent_at else none

-- A pointer to a time, the zero time at nil.
abbrev pub time_or_zero : Option Time → Time
time_or_zero none = 0
time_or_zero (some t) = t

abbrev pub later_send : Option Time → Time → Time
later_send none u = u
later_send (some t) u = if after t u then t else u

-- A remembered send whose delay has not passed.
abbrev pub within_delay : Option Time → Time → Bool
within_delay none now = false
within_delay (some t) now = before now (t + release_stage_retry_base)

-- The last send is there, and its delay has not passed.
abbrev pub in_retry_window : Time → Time → Bool
in_retry_window sent now = not (is_zero sent) && before now (sent + release_stage_retry_base)

unfoldable pub same_command : WasmFunction → String → String → Bool
same_command wf desired runtime_mode =
    let mode = wf.status.last_commanded_runtime_mode in
    let last_runtime_mode =
      if text_eq mode ""
      then runtime_mode_for_placement wf.status.last_commanded_placement
      else mode in
    text_eq wf.status.last_commanded_placement desired && text_eq last_runtime_mode runtime_mode

unfoldable pub should_skip_placement_command :
    String → String → String → String → Time → Control → Bool × Control
should_skip_placement_command command_id desired runtime_mode digest now s =
    let wf = s.wf in
    let remembered = remembered_send (lookup (key_of wf) s.activation_sends) command_id in
    if text_eq desired "" || text_eq runtime_mode ""
    then (true, s)
    else if already_running wf runtime_mode digest
    then (true, record s { activation_sends = delete (key_of wf) s.activation_sends })
    else if not (text_eq wf.status.last_command_id command_id)
    then (within_delay remembered now, s)
    else if not (same_command wf desired runtime_mode)
    then (false, s)
    else (in_retry_window (later_send remembered (time_or_zero wf.status.last_command_time)) now, s)

unfoldable pub remember_release_activation_send : String → Time → Exec (Unit {0})
remember_release_activation_send command_id now s = (
  ok tt,
  record s {
    activation_sends =
        insert (key_of s.wf) (record { command_id = command_id; sent_at = now }) s.activation_sends;
  },
)

-- The status after an activation command; the placement is recorded where it is tracked.
unfoldable pub record_command : String → String → String → Bool → Exec (Unit {0})
record_command command_id placement runtime_mode track = set_status λ st. record st {
  last_commanded_placement = if track then placement else st.last_commanded_placement;
  last_commanded_runtime_mode = if track then runtime_mode else st.last_commanded_runtime_mode;
  last_command_id = command_id;
}

unfoldable pub send_activate_local_command : Env → WasmFunction → String → Bool → Exec Bool
send_activate_local_command env wf topic track = do
  remember_release_activation_send (activate_local_command_id wf) env.now
  publish_control env topic
      (activate_local (activate_local_command_id wf) wf.spec.release.generation)
  record_command (activate_local_command_id wf) placement_local placement_local track
  pure true

unfoldable pub send_runtime_mode_command :
    Env → WasmFunction → String → PlacementDecision → Bool → Exec Bool
send_runtime_mode_command env wf topic d track = do
  remember_release_activation_send (runtime_edge_command_id wf) env.now
  publish_control env topic
      (set_runtime_mode (runtime_edge_command_id wf) placement_edge wf.spec.release.generation)
  record_command (runtime_edge_command_id wf) d.desired placement_edge track
  pure true

-- `send` unless the command is to be skipped.
abbrev pub unless_skipped : (Bool × Control) → Exec Bool → Outcome Bool × Control
unless_skipped r send = if r.0 then (ok false, r.1) else send r.1

unfoldable pub host_active_matches : WasmFunction → ArtifactDecision → Bool
host_active_matches wf a =
    host_release_matches a.host_digest a.host_active_generation a.host_active_function wf

unfoldable pub host_staged_matches : WasmFunction → ArtifactDecision → Bool
host_staged_matches wf a =
    host_release_matches a.host_staged_digest a.host_staged_generation a.host_staged_function wf

-- Activates the staged release of the host. The result is what the operator then holds of the host.
unfoldable pub activate_host : Env → WasmFunction → ArtifactDecision → Exec ArtifactDecision
activate_host env wf a = elim env.activate_error [
  | some m ↦ raise m
  | none ↦
      set_status (λ st. record st {
        host_artifact_digest = a.desired_digest;
        host_staged_artifact_digest = "";
      })
      >> pure (record a {
        host_digest = a.desired_digest;
        host_active_generation = wf.spec.release.generation;
        host_active_function = wf.spec.release.function_identity;
        host_staged_digest = "";
        host_staged_generation = pos 0;
        host_staged_function = "";
      })
]

unfoldable pub command_edge :
    Env → WasmFunction → String → PlacementDecision → Bool → ArtifactDecision → Exec Bool
command_edge env wf topic d track a s =
    if not (host_active_matches wf a)
    then (ok false, s)
    else unless_skipped
        (should_skip_placement_command (runtime_edge_command_id wf) d.desired placement_edge
          a.desired_digest env.now s)
        (send_runtime_mode_command env wf topic d track)

unfoldable pub apply_placement_command :
    Env → String → PlacementDecision → ArtifactDecision → Exec Bool
apply_placement_command env topic d a s =
    let wf = s.wf in
    let track = not d.transition || d.deadline.accepted in
    if not a.enabled || no_release wf a.desired_digest
    then (ok false, s)
    else if not (device_release_ready wf a.desired_digest)
    then (ok false, s)
    else if text_eq d.desired placement_local
    then unless_skipped
        (should_skip_placement_command (activate_local_command_id wf) d.desired placement_local
          a.desired_digest env.now s)
        (send_activate_local_command env wf topic track)
    else if host_active_matches wf a
    then command_edge env wf topic d track a s
    else if host_staged_matches wf a
    then (activate_host env wf a >>= command_edge env wf topic d track) s
    else (ok false, s)
