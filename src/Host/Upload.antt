-- ===== src/Host/Upload.antt =====
-- handleWasmUpload (edge/host/main.go). The handler takes the lock twice, around its check of the
-- generation and around its write of the slot, so it is two steps on the host, `check_generation`
-- and `stage`, with the rename of the uploaded file between them.
use Prim.Native.Char.{code}
use Prim.Native.String.{◌∷◌, []}
use sertay_thesis.Prelude.{
  ℕ, ◌+◌, ◌-◌, ◌*◌, ◌^◌, Bool, true, false, not, ◌&&◌, ◌||◌, Option, none, some, ltb, leb, ◌==◌,
  length, if◌then◌else◌,
}
use sertay_thesis.Prelude.Int.{ℤ, pos, negsuc, leb_ℤ, ltb_ℤ, eq_ℤ}
use sertay_thesis.Prelude.Text.{String, ◌++◌, text_eq, trim_space, to_lower, len}
use sertay_thesis.Prelude.Maps.{string_eq, insert, delete}
use sertay_thesis.Artifact.Http.{Bytes, Outcome, ok, err}
use sertay_thesis.Host.State.{CompiledRelease, Host, Reply, reject, release}

-- The digits of a number behind `n`, or nothing where another character stands.
unfoldable pub parse_digits : ℕ → String → Option ℕ
parse_digits n [] = some n
parse_digits n (c ∷ s) =
    let digit = leb b'0' (code c) && leb (code c) b'9' in
    let rest = parse_digits (n * 10 + (code c - b'0')) s in if digit then rest else none

abbrev pub in_range64 : Bool → ℕ → Option ℤ
in_range64 false n = if ltb n (2 ^ 63) then some (pos n) else none
in_range64 true n =
    if n == 0 then some (pos 0) else if leb n (2 ^ 63) then some (negsuc (n - 1)) else none

unfoldable pub parse_magnitude : Bool → String → Option ℤ
parse_magnitude negative [] = none
parse_magnitude negative (c ∷ s) = elim (parse_digits 0 (c ∷ s)) [
  | none ↦ none
  | some n ↦ in_range64 negative n
]

-- strconv.ParseInt(s, 10, 64), without its error
unfoldable pub parse_int : String → Option ℤ
parse_int [] = none
parse_int (c ∷ s) =
    if code c == b'-'
    then parse_magnitude true s
    else if code c == b'+'
    then parse_magnitude false s
    else parse_magnitude false (c ∷ s)

-- The headers that the handler reads, and what the calls outside the program give it: the file
-- system, the copied body, its SHA-256 and the compilation by wasmtime.
pub record UploadRequest (M : Type 0) : Type 0 where
  pub release_generation : String
  pub function_identity : String
  pub x_wasm_sha256 : String
  pub mkdir_error : Bool
  pub create_error : Bool
  pub copied : Outcome Bytes
  pub close_error : Bool
  pub digest_bytes : Bytes → String
  pub compile : Bytes → Outcome M
  pub rename_error : Bool

-- What the headers declare.
pub record Declared : Type 0 where
  pub generation : ℤ
  pub function : String
  pub digest : String

-- The checks of the headers; the error is the reply.
pub data Checked (A : Type 0) : Type 0 where
  passed : A → Checked A
  refused : Reply → Checked A

unfoldable pub check_headers : {M : Type 0} → UploadRequest M → Checked Declared
check_headers r =
    let function = trim_space r.function_identity in
    let digest = to_lower (trim_space r.x_wasm_sha256) in
    elim (parse_int (trim_space r.release_generation)) [
      | none ↦ refused (reject 400 "missing or invalid release generation")
      | some generation ↦
          if leb_ℤ generation (pos 0)
          then refused (reject 400 "missing or invalid release generation")
          else if text_eq function ""
          then refused (reject 400 "missing function identity")
          else if not (len digest == 64)
          then refused (reject 400 "missing or invalid release digest")
          else passed (record { generation = generation; function = function; digest = digest })
    ]

-- A module that was received, with what was declared of it.
pub record Received (M : Type 0) : Type 0 where
  pub declared : Declared
  pub bytes : Bytes
  pub module_ : M

-- The body: written, not empty, of the declared digest, and a valid module. On a refusal the
-- temporary file is removed, and on success the caller has it.
unfoldable pub check_bytes :
    {M : Type 0} → UploadRequest M → Declared → Bytes → Checked (Received M)
check_bytes r d bytes =
    if r.close_error
    then refused (reject 500 "failed to finalize wasm upload")
    else if length bytes == 0
    then refused (reject 400 "empty wasm upload")
    else if not (text_eq (r.digest_bytes bytes) d.digest)
    then refused (reject 400 "uploaded bytes do not match declared release digest")
    else elim (r.compile bytes) [
      | err m ↦ refused (reject 400 ("invalid wasm upload: " ++ m))
      | ok module_ ↦ passed (record { declared = d; bytes = bytes; module_ = module_ })
    ]

unfoldable pub receive : {M : Type 0} → UploadRequest M → Declared → Checked (Received M)
receive r d =
    if r.mkdir_error
    then refused (reject 500 "failed to prepare wasm directory")
    else if r.create_error
    then refused (reject 500 "failed to create temp wasm file")
    else elim r.copied [
      | err m ↦ refused (reject 400 "failed to write wasm upload")
      | ok bytes ↦ check_bytes r d bytes
    ]

abbrev pub bind : {A B : Type 0} → Checked A → (A → Checked B) → Checked B
bind (passed a) f = f a
bind (refused reply) f = refused reply

unfoldable pub receive_upload : {M : Type 0} → UploadRequest M → Checked (Received M)
receive_upload r = bind (check_headers r) (receive r)

abbrev pub accepted : String → Declared → Reply
accepted status d = record { code = 200; body = release status d.generation d.function d.digest }

-- Compares with what is there already: the same release again is accepted, another one refused.
abbrev pub same_or_conflict : Bool → String → String → Declared → Reply
same_or_conflict true status message d = accepted status d
same_or_conflict false status message d = reject 409 message

abbrev pub older_than_staged : {M : Type 0} → Declared → Option (CompiledRelease M) → Bool
older_than_staged d none = false
older_than_staged d (some staged) = ltb_ℤ d.generation staged.generation

-- The first locked region: a reply, or nothing where the release is to be staged.
unfoldable pub check_staged : {M : Type 0} → Declared → Option (CompiledRelease M) → Option Reply
check_staged d none = none
check_staged d (some staged) =
    if eq_ℤ d.generation staged.generation
    then some (
        same_or_conflict (text_eq d.digest staged.digest && text_eq d.function staged.function)
          "staged" "release generation conflicts with staged metadata" d)
    else none

unfoldable pub check_generation : {M : Type 0} → Host M → Declared → Option Reply
check_generation h d =
    if ltb_ℤ d.generation h.active_generation || older_than_staged d h.staged_release
    then some (reject 409 "stale release generation")
    else if eq_ℤ d.generation h.active_generation
    then some (
        same_or_conflict (text_eq d.digest h.wasm_digest && text_eq d.function h.active_function)
          "active" "release generation conflicts with active metadata" d)
    else check_staged d h.staged_release

abbrev pub staged_path : {M : Type 0} → Host M → String
staged_path h = h.wasm_path ++ ".staged"

-- The rename and the second locked region.
unfoldable pub stage : {M : Type 0} → Host M → Received M → Host M
stage h r = record h {
  staged_release = some (record {
    module_ = r.module_;
    digest = r.declared.digest;
    generation = r.declared.generation;
    function = r.declared.function;
    path = staged_path h;
  });
  files = insert (staged_path h) r.bytes h.files;
}

-- The rest of the handler for a received module, with no other request in between.
unfoldable pub finish_upload : {M : Type 0} → Host M → Bool → Received M → Reply × Host M
finish_upload h rename_error r = elim (check_generation h r.declared) [
  | some reply ↦ (reply, h)
  | none ↦
      if rename_error
      then (
        reject 500 "failed to stage uploaded wasm",
        record h { files = delete (staged_path h) h.files },
      )
      else (accepted "staged" r.declared, stage h r)
]

unfoldable pub answer_upload : {M : Type 0} → Host M → Bool → Checked (Received M) → Reply × Host M
answer_upload h rename_error (refused reply) = (reply, h)
answer_upload h rename_error (passed received) = finish_upload h rename_error received

unfoldable pub handle_wasm_upload : {M : Type 0} → Host M → UploadRequest M → Reply × Host M
handle_wasm_upload h r = answer_upload h r.rename_error (receive_upload r)
