-- ===== src/Examples/Host.antt =====
-- The theorems on the edge host at a concrete host, uploads and guest.
use sertay_thesis.Prelude.{
  ℕ, ◌≡◌, ◌↔◌, ◌≤◌, ◌<◌, ◌+◌, refl, true, false, none, some, [], ◌∷◌, is_some, arith,
}
use sertay_thesis.Prelude.Int.{ℤ, pos, ◌+ℤ◌, ◌≤ℤ◌, ◌<ℤ◌}
use sertay_thesis.Prelude.Text.{String}
use sertay_thesis.Prelude.Maps.{lookup, insert, delete}
use sertay_thesis.Artifact.Http.{ok}
use sertay_thesis.Host.State.{Host, reject}
use sertay_thesis.Host.Upload.{
  UploadRequest, Received, check_generation, handle_wasm_upload, stage, check_staged,
}
use sertay_thesis.Host.Activate.{
  Renames, post, activate_staged_release, handle_release, backed_up, activated_with, move_staged,
  move_error, swap_releases, activate_staged,
}
use sertay_thesis.Host.Invariant.{Advances, Run, Step, run-Advances}
use sertay_thesis.Host.Slots.{Activation, Activation-cases}
use sertay_thesis.Host.Race.{stage_and_activate, concurrent_rollback}
use sertay_thesis.Host.Process.{ProcessRequest}
use sertay_thesis.Host.Hal.{Execution, Guest, calls, returns, HalCall, Conversions, wasm_bytes}
use sertay_thesis.Host.Execution.{
  Instance, exports, run_wasm, run_guest, active_release, finish_run, run_instance,
}
use sertay_thesis.Host.Bounds.{wasm_bytes_exact}
use sertay_thesis.Host.Served.{IsRunOf, run_release}
use sertay_thesis.Examples.Data.{digest}

-- A module is its generation here.
abbrev host : Host ℕ
host = record {
  module_ = 3;
  wasm_path = "f.wasm";
  wasm_digest = "";
  active_generation = pos 3;
  active_function = "dht-reader";
  staged_release = none;
  files = ("f.wasm", 3 ∷ []) ∷ [];
}

abbrev received : ℕ → Received ℕ
received generation = record {
  declared = record { generation = pos generation; function = "dht-reader"; digest = digest };
  bytes = generation ∷ [];
  module_ = generation;
}

abbrev upload_of : String → UploadRequest ℕ
upload_of generation = record {
  release_generation = generation;
  function_identity = "dht-reader";
  x_wasm_sha256 = digest;
  mkdir_error = false;
  create_error = false;
  copied = ok (4 ∷ []);
  close_error = false;
  digest_bytes = λ _. digest;
  compile = λ _. ok 4;
  rename_error = false;
}

abbrev no_errors : Renames
no_errors = record { backup_error = none; activate_error = none; missing = "no such file" }

-- An upload of generation 4, and its activation.
abbrev update :
    let uploaded = (handle_wasm_upload host (upload_of "4")).1 in
    Run host (handle_release uploaded (post (some (pos 4)) no_errors)).1
update =
    let uploaded = (handle_wasm_upload host (upload_of "4")).1 in
    Run.◌∷◌ (Step.upload host (upload_of "4"))
      (Run.◌∷◌ (Step.release uploaded (post (some (pos 4)) no_errors)) (Run.done _))

run-Advances_example :
    let uploaded = (handle_wasm_upload host (upload_of "4")).1 in
    Advances host (handle_release uploaded (post (some (pos 4)) no_errors)).1
run-Advances_example = run-Advances update refl

Activation-cases_example :
    Activation
      (stage host (received 4))
      (pos 4)
      no_errors
      (activate_staged_release (stage host (received 4)) (pos 4) no_errors)
Activation-cases_example = Activation-cases (stage host (received 4)) (pos 4) no_errors

passes : (n : ℕ) → 3 < n → check_generation host (received n).declared ≡ none
unfolding check_generation check_staged
passes n h = ground arith

newer_activated : (stage_and_activate host (received 5) no_errors).0 ≡ ok tt
unfolding lookup insert delete stage backed_up move_staged move_error swap_releases activate_staged
    activate_staged_release
newer_activated = refl

older_activated :
    (stage_and_activate (stage_and_activate host (received 5) no_errors).1 (received 4) no_errors).0
    ≡ ok tt
unfolding lookup insert delete stage backed_up activated_with move_staged move_error swap_releases
    activate_staged activate_staged_release
older_activated = refl

concurrent_rollback_example :
    let active = (stage_and_activate host (received 5) no_errors).1 in
    (check_generation active (received 4).declared ≡ some (reject 409 "stale release generation"))
    × ((stage_and_activate active (received 4) no_errors).1.active_generation
        <ℤ active.active_generation)
concurrent_rollback_example =
    concurrent_rollback host (received 4) (received 5) no_errors no_errors (passes 4 (omega arith))
      (passes 5 (omega arith)) (omega arith) newer_activated older_activated

-- A float32 is an integer here.
abbrev conversions : Conversions ℤ
conversions = record {
  floats = record {
    of_i32 = λ z. z;
    to_i32 = λ z. z;
    zero_f32 = pos 0;
    one_f32 = pos 1;
    missing = pos 999;
    is_zero_f32 = λ _. false;
  };
  text = λ _. "temperatureF";
}

abbrev request : ProcessRequest ℤ
request = record {
  function = "dht-reader";
  release_generation = pos 3;
  source = "esp32";
  resource_inputs = [];
}

abbrev before : Execution ℤ
before = record { sensor_data = request; output_data = ("old", pos 1) ∷ [] }

abbrev after_nothing : Execution ℤ
after_nothing = record { sensor_data = request; output_data = [] }

-- Sets one output and returns 7.
abbrev guest : Guest ℤ
guest =
    calls (HalCall.set_output_f32 (pos 0) (pos 1) (pos 72)) (some (65 ∷ [])) (λ _. returns (pos 7))

abbrev instantiate : ℕ → Instance ℤ
instantiate n = exports guest

ran : (run_wasm conversions instantiate (pos 1500000) host request before).0.error ≡ none
unfolding run_guest finish_run run_instance run_wasm
ran = refl

run_release_example :
    let run = (run_wasm conversions instantiate (pos 1500000) host request before).0 in
    (g : Guest ℤ) × (instantiate host.module_ ≡ exports g)
    × IsRunOf conversions g request run
    × (run.release ≡ active_release host)
    × ("dht-reader" ≡ host.active_function)
    × (pos 3 ≡ host.active_generation)
run_release_example = run_release conversions instantiate (pos 1500000) host request before ran

wasm_bytes_exact_example :
    (is_some (wasm_bytes (some (1 ∷ 2 ∷ 3 ∷ [])) (pos 1) (pos 2)) ≡ true)
    ↔ ((pos 0 ≤ℤ pos 1) × (pos 0 ≤ℤ pos 2) × (1 + 2 ≤ 3))
wasm_bytes_exact_example = wasm_bytes_exact (1 ∷ 2 ∷ 3 ∷ []) (pos 1) (pos 2)

two_bytes : wasm_bytes (some (1 ∷ 2 ∷ 3 ∷ [])) (pos 1) (pos 2) ≡ some (2 ∷ 3 ∷ [])
unfolding wasm_bytes ◌+ℤ◌
two_bytes = refl
