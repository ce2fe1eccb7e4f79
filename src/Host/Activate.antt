-- ===== src/Host/Activate.antt =====
-- activateStagedRelease and handleRelease (edge/host/main.go).
use sertay_thesis.Prelude.{Option, none, some, if◌then◌else◌}
use sertay_thesis.Prelude.Int.{ℤ, pos, leb_ℤ, eq_ℤ}
use sertay_thesis.Prelude.Text.{String, ◌++◌, format_int}
use sertay_thesis.Prelude.Maps.{string_eq, lookup, insert, delete}
use sertay_thesis.Artifact.Http.{Bytes, Outcome, ok, err}
use sertay_thesis.Host.State.{
  CompiledRelease, Host, Files, Reply, ReleaseStatus, reject, activated, status,
}

-- The errors of the two renames. A missing active file is no error, so `backup_error` stands for
-- another one. `missing` is the error of a rename whose source does not exist.
pub record Renames : Type 0 where
  pub backup_error : Option String
  pub activate_error : Option String
  pub missing : String

-- os.Rename; a missing source changes nothing.
abbrev pub rename : String → String → Files → Files
rename from to files = elim (lookup from files) [
  | none ↦ files
  | some bytes ↦ insert to bytes (delete from files)
]

abbrev pub backup_path : {M : Type 0} → Host M → String
backup_path h = h.wasm_path ++ ".previous"

-- The active file, moved out of the way.
unfoldable pub backed_up : {M : Type 0} → Host M → Host M
backed_up h = record h {
  files = rename h.wasm_path (backup_path h) (delete (backup_path h) h.files);
}

-- The active file, moved back.
unfoldable pub restored : {M : Type 0} → Host M → Host M
restored h = record h { files = rename (backup_path h) h.wasm_path h.files }

-- The staged release in the active slot.
unfoldable pub activated_with : {M : Type 0} → Host M → CompiledRelease M → Host M
activated_with h staged = record h {
  module_ = staged.module_;
  wasm_digest = staged.digest;
  active_generation = staged.generation;
  active_function = staged.function;
  staged_release = none;
  files = delete (backup_path h) (rename staged.path h.wasm_path h.files);
}

unfoldable pub move_staged :
    {M : Type 0} → Host M → CompiledRelease M → Option String → Outcome (Unit {0}) × Host M
move_staged h staged none = (ok tt, activated_with h staged)
move_staged h staged (some m) = (err ("activate staged wasm: " ++ m), restored h)

-- What the rename of the staged file returns.
abbrev pub error_of_file : String → Option Bytes → Option String
error_of_file missing none = some missing
error_of_file missing (some bytes) = none

unfoldable pub move_error : {M : Type 0} → Host M → CompiledRelease M → Renames → Option String
move_error h staged renames = elim renames.activate_error [
  | some m ↦ some m
  | none ↦ error_of_file renames.missing (lookup staged.path h.files)
]

unfoldable pub swap_releases :
    {M : Type 0} → Host M → CompiledRelease M → Renames → Outcome (Unit {0}) × Host M
swap_releases h staged renames = elim renames.backup_error [
  | some m ↦
      (err ("backup active wasm: " ++ m), record h { files = delete (backup_path h) h.files })
  | none ↦ move_staged (backed_up h) staged (move_error (backed_up h) staged renames)
]

abbrev pub not_staged : {M : Type 0} → Host M → ℤ → Outcome (Unit {0}) × Host M
not_staged h generation =
    (err ("release generation " ++ format_int generation ++ " is not staged"), h)

unfoldable pub activate_staged :
    {M : Type 0} → Host M → ℤ → Option (CompiledRelease M) → Renames → Outcome (Unit {0}) × Host M
activate_staged h generation none renames = not_staged h generation
activate_staged h generation (some staged) renames =
    if eq_ℤ staged.generation generation
    then swap_releases h staged renames
    else not_staged h generation

unfoldable pub activate_staged_release :
    {M : Type 0} → Host M → ℤ → Renames → Outcome (Unit {0}) × Host M
activate_staged_release h generation renames =
    if eq_ℤ generation h.active_generation
    then (ok tt, h)
    else activate_staged h generation h.staged_release renames

abbrev pub staged_part : {M : Type 0} → Host M → Option (CompiledRelease M) → ReleaseStatus
staged_part h none = record {
  active_generation = h.active_generation;
  active_digest = h.wasm_digest;
  active_function = h.active_function;
  staged_generation = pos 0;
  staged_digest = "";
  staged_function = "";
}
staged_part h (some staged) = record {
  active_generation = h.active_generation;
  active_digest = h.wasm_digest;
  active_function = h.active_function;
  staged_generation = staged.generation;
  staged_digest = staged.digest;
  staged_function = staged.function;
}

-- The case GET of handleRelease.
unfoldable pub release_status : {M : Type 0} → Host M → ReleaseStatus
release_status h = staged_part h h.staged_release

abbrev pub activation_reply : {M : Type 0} → ℤ → Outcome (Unit {0}) × Host M → Reply × Host M
activation_reply generation (ok u, h) = (record { code = 200; body = activated generation }, h)
activation_reply generation (err m, h) = (reject 409 m, h)

-- The case POST; the request is the decoded generation, or nothing where it does not decode.
unfoldable pub post_release : {M : Type 0} → Host M → Option ℤ → Renames → Reply × Host M
post_release h none renames = (reject 400 "invalid activation request", h)
post_release h (some generation) renames =
    if leb_ℤ generation (pos 0)
    then (reject 400 "invalid activation request", h)
    else activation_reply generation (activate_staged_release h generation renames)

-- The methods of `/release`.
pub data ReleaseRequest : Type 0 where
  get : ReleaseRequest
  post : Option ℤ → Renames → ReleaseRequest
  other_method : ReleaseRequest

unfoldable pub handle_release : {M : Type 0} → Host M → ReleaseRequest → Reply × Host M
handle_release h get = (record { code = 200; body = status (release_status h) }, h)
handle_release h (post generation renames) = post_release h generation renames
handle_release h other_method = (reject 405 "method not allowed", h)
