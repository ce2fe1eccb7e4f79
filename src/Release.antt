-- ===== src/Release.antt =====
-- Releases on the operator's side: digests, which release a runtime holds, the state of the delivery
-- and the delay between retries (edge/operator/internal/controller/wasmfunction_controller.go,
-- artifact_sync.go and mqtt_telemetry.go).
pub mod Digest
pub mod Retry
use Prim.Native.Char.{Char, code}
use Prim.Native.String.{slice, ◌∷◌, []}
use sertay_thesis.Prelude.{
  ℕ, zero, suc, ◌+◌, ◌-◌, ◌*◌, Bool, true, false, not, ◌&&◌, ◌||◌, leb, ltb, ◌==◌, if◌then◌else◌,
}
use sertay_thesis.Prelude.Int.{ℤ, pos, negsuc, leb_ℤ, ltb_ℤ, eq_ℤ}
use sertay_thesis.Prelude.Text.{
  String, ◌++◌, len, text_eq, trim_space, to_lower, trim_prefix, trim_code, format_int,
}
use sertay_thesis.Prelude.Time.{Duration, second}
use sertay_thesis.Api.{WasmFunction}

unfoldable pub is_hex_digit : ℕ → Bool
is_hex_digit c = not ((ltb c b'0' || ltb b'9' c) && (ltb c b'a' || ltb b'f' c))

unfoldable pub all_hex : String → Bool
all_hex [] = true
all_hex (c ∷ s) = is_hex_digit (code c) && all_hex s

unfoldable pub normalize_artifact_digest : String → String
normalize_artifact_digest digest =
    let lowered = to_lower (trim_space digest) in
    if not (len lowered == 64) then "" else if all_hex lowered then lowered else ""

unfoldable pub artifact_digest_for_log : String → String
artifact_digest_for_log digest =
    let normalized = normalize_artifact_digest digest in
    if text_eq normalized ""
    then trim_space digest
    else if leb (len normalized) 12
    then normalized
    else slice normalized 0 12 ++ "..."

-- The two headers that carry a digest.
unfoldable pub artifact_digest_from_headers : String → String → String
artifact_digest_from_headers x_wasm_sha256 etag =
    let digest = normalize_artifact_digest x_wasm_sha256 in
    let unquoted = trim_code 34 (trim_prefix (trim_space etag) "W/") in
    if not (text_eq digest "")
    then digest
    else normalize_artifact_digest (trim_prefix (to_lower unquoted) "sha256:")

unfoldable pub host_release_matches : String → ℤ → String → WasmFunction → Bool
host_release_matches digest generation function wf =
    text_eq (normalize_artifact_digest digest)
      (normalize_artifact_digest wf.spec.release.artifact_digest)
    && eq_ℤ generation wf.spec.release.generation
    && text_eq (trim_space function) (trim_space wf.spec.release.function_identity)

unfoldable pub device_release_staged : WasmFunction → String → Bool
device_release_staged wf digest =
    eq_ℤ wf.status.staged_release_generation wf.spec.release.generation
    && text_eq (normalize_artifact_digest wf.status.device_staged_artifact_digest) digest

unfoldable pub device_release_active : WasmFunction → String → Bool
device_release_active wf digest =
    eq_ℤ wf.status.acknowledged_release_generation wf.spec.release.generation
    && text_eq (normalize_artifact_digest wf.status.observed_artifact_digest) digest
    && text_eq (trim_space wf.status.observed_function)
        (trim_space wf.spec.release.function_identity)

unfoldable pub device_release_ready : WasmFunction → String → Bool
device_release_ready wf digest = device_release_staged wf digest || device_release_active wf digest

-- The identifiers of the commands that carry a generation.
unfoldable pub stage_command_id : WasmFunction → String → String
stage_command_id wf digest =
    "stage-" ++ format_int wf.spec.release.generation ++ "-" ++ artifact_digest_for_log digest

unfoldable pub activate_local_command_id : WasmFunction → String
activate_local_command_id wf = "activate-local-" ++ format_int wf.spec.release.generation

unfoldable pub runtime_edge_command_id : WasmFunction → String
runtime_edge_command_id wf = "runtime-edge-" ++ format_int wf.spec.release.generation

-- No digest, or a generation that is not positive.
unfoldable pub no_release : WasmFunction → String → Bool
no_release wf digest = text_eq digest "" || leb_ℤ wf.spec.release.generation (pos 0)

unfoldable pub release_delivery_state : WasmFunction → String → String
release_delivery_state wf digest =
    if no_release wf digest
    then "Pending"
    else if device_release_active wf digest
    then "Active"
    else if device_release_staged wf digest
    then (if text_eq wf.status.last_command_id (activate_local_command_id wf)
          || text_eq wf.status.last_command_id (runtime_edge_command_id wf)
        then "AwaitingActivationAck"
        else "Staged")
    else if text_eq wf.status.last_stage_command_id (stage_command_id wf digest)
    then "AwaitingStageAck"
    else "Pending"

abbrev pub release_stage_retry_base : Duration
release_stage_retry_base = 30 * second

abbrev pub release_stage_retry_max : Duration
release_stage_retry_max = 60 * second

-- The loop of releaseStageRetryDelay, with the rounds that its counter leaves.
unfoldable pub double_delay : ℕ → Duration → Duration
double_delay zero delay = delay
double_delay (suc rounds) delay =
    let next =
      if ltb release_stage_retry_max (delay * 2) then release_stage_retry_max else delay * 2 in
    elim (ltb delay release_stage_retry_max) [ true ↦ double_delay rounds next | false ↦ delay ]

-- How often `n` can be raised from 1 while it is below `attempts`.
unfoldable pub rounds_of : ℤ → ℕ
rounds_of (pos n) = n - 1
rounds_of (negsuc n) = 0

unfoldable pub release_stage_retry_delay : ℤ → Duration
release_stage_retry_delay attempts =
    let attempts' = if ltb_ℤ attempts (pos 1) then pos 1 else attempts in
    double_delay (rounds_of attempts') release_stage_retry_base
