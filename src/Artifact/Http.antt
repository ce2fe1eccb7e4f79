-- ===== src/Artifact/Http.antt =====
-- The HTTP requests of the artifact synchronization
-- (edge/operator/internal/controller/artifact_sync.go). The replies of the servers are arguments, and
-- so are the SHA-256 of a body and the decoding of a release status.
use sertay_thesis.Prelude.{
  ℕ, ◌+◌, ◌*◌, Bool, not, ◌&&◌, Option, none, some, List, [], ◌∷◌, leb, ltb, ◌==◌, length, take,
  if◌then◌else◌,
}
use sertay_thesis.Prelude.Int.{ℤ, pos, eq_ℤ}
use sertay_thesis.Prelude.Text.{
  String, ◌++◌, text_eq, trim_space, trim_suffix, format_int, format_nat,
}
use sertay_thesis.Api.{WasmFunction}
use sertay_thesis.Release.{artifact_digest_from_headers}

abbrev pub Bytes : Type 0
Bytes = List ℕ

-- What a fallible step returns; an error is its message.
pub data Outcome (A : Type 0) : Type 0 where
  ok : A → Outcome A
  err : String → Outcome A

infixl 5 ◌>>=◌
abbrev pub ◌>>=◌ : {A B : Type 0} → Outcome A → (A → Outcome B) → Outcome B
ok a >>= f = f a
err m >>= f = err m

-- `fmt.Errorf(prefix + "%w", err)`
abbrev pub wrap : {A : Type 0} → String → Outcome A → Outcome A
wrap prefix (ok a) = ok a
wrap prefix (err m) = err (prefix ++ m)

pub record HostReleaseStatus : Type 0 where
  pub active_generation : ℤ
  pub active_digest : String
  pub active_function : String
  pub staged_generation : ℤ
  pub staged_digest : String
  pub staged_function : String

-- An answer of an HTTP server: the status code and line, two headers, and the body, which may fail
-- to be read.
pub record Response : Type 0 where
  pub status_code : ℕ
  pub status : String
  pub x_wasm_sha256 : String
  pub etag : String
  pub body : Outcome Bytes

-- The PUT of uploadArtifact: its URL, its headers and its body.
pub record PutRequest : Type 0 where
  pub url : String
  pub artifact_caller : String  -- the header artifactCallerHeader
  pub content_type : String
  pub x_wasm_sha256 : String
  pub release_generation : String
  pub function_identity : String
  pub body : Bytes

-- The replies that one run gets, in the order of the requests. A request that is not sent has one
-- too. The host answers a PUT for what it says.
pub record Replies : Type 0 where
  pub head_source : Outcome Response
  pub get_source_digest : Outcome Response
  pub get_release : Outcome Response
  pub get_source : Outcome Response
  pub put_host : PutRequest → Outcome Response

abbrev pub is_success : ℕ → Bool
is_success code = leb 200 code && ltb code 300

abbrev pub max_artifact_download_bytes : ℕ
max_artifact_download_bytes = 8 * 1048576

abbrev pub max_artifact_error_body_bytes : ℕ
max_artifact_error_body_bytes = 4096

unfoldable pub operator_artifact_url : WasmFunction → String
operator_artifact_url wf = trim_space wf.spec.device.operator_wasm_url

unfoldable pub device_artifact_url : WasmFunction → String
device_artifact_url wf = trim_space wf.spec.device.artifact_url

unfoldable pub effective_port : WasmFunction → ℤ
effective_port wf = if eq_ℤ wf.spec.port (pos 0) then pos 8080 else wf.spec.port

-- Without a resolver the URL is that of the service.
unfoldable pub host_wasm_url : Option (WasmFunction → String) → WasmFunction → String
host_wasm_url none wf =
    "http://" ++ wf.name ++ "." ++ wf.namespace ++ ":" ++ format_int (effective_port wf) ++ "/wasm"
host_wasm_url (some resolver) wf = resolver wf

-- What the code takes from the standard library and the client: the SHA-256 of a body in
-- hexadecimal digits, a body as text, and the decoding of a release status.
pub record Codec : Type 0 where
  pub digest_bytes : Bytes → String
  pub text_of : Bytes → String
  pub decode_status : Bytes → Outcome HostReleaseStatus

-- The text of a body, empty where it cannot be read.
abbrev pub body_text : Codec → Outcome Bytes → String
body_text codec (ok bytes) = trim_space (codec.text_of (take max_artifact_error_body_bytes bytes))
body_text codec (err m) = ""

-- The error for a status code outside 200..299, with the text of the body if there is one.
unfoldable pub refused_with_body : {A : Type 0} → Codec → String → String → Response → Outcome A
refused_with_body codec method url r =
    let message = body_text codec r.body in
    if text_eq message ""
    then err (method ++ url ++ " returned " ++ r.status)
    else err (method ++ url ++ " returned " ++ r.status ++ ": " ++ message)

-- The part of fetchArtifact behind the length checks.
unfoldable pub check_digest : Codec → String → Response → Bytes → Outcome (Bytes × String)
check_digest codec url r bytes =
    let header_digest = artifact_digest_from_headers r.x_wasm_sha256 r.etag in
    let actual_digest = codec.digest_bytes bytes in
    if not (text_eq header_digest "") && not (text_eq header_digest actual_digest)
    then err (
        "GET " ++ url ++ " digest header " ++ header_digest ++ " did not match body digest "
        ++ actual_digest)
    else ok (bytes, if text_eq header_digest "" then actual_digest else header_digest)

-- The part of fetchArtifact behind the status code.
unfoldable pub check_length : Codec → String → Response → Bytes → Outcome (Bytes × String)
check_length codec url r bytes =
    if length bytes == 0
    then err ("GET " ++ url ++ " returned an empty artifact")
    else if ltb max_artifact_download_bytes (length bytes)
    then err ("GET " ++ url ++ " exceeded " ++ format_nat max_artifact_download_bytes ++ " bytes")
    else check_digest codec url r bytes

unfoldable pub read_artifact : Codec → String → Response → Outcome (Bytes × String)
read_artifact codec url r = do
  whole ← wrap ("read GET " ++ url ++ " body: ") r.body
  check_length codec url r (take (max_artifact_download_bytes + 1) whole)

unfoldable pub fetch_artifact : Codec → String → Outcome Response → Outcome (Bytes × String)
fetch_artifact codec url reply = do
  r ← wrap ("GET " ++ url ++ " failed: ") reply
  if is_success r.status_code
      then read_artifact codec url r
      else refused_with_body codec "GET " url r

-- The GET of fetchArtifactDigest, after a HEAD that gave no digest.
unfoldable pub fetch_digest_by_get : Codec → String → Outcome Response → Outcome String
fetch_digest_by_get codec url reply = do fetched ← fetch_artifact codec url reply; ok fetched.1

unfoldable pub fetch_artifact_digest :
    Codec → String → Outcome Response → Outcome Response → Outcome String
fetch_artifact_digest codec url (err head_error) get =
    wrap ("HEAD " ++ url ++ " failed: " ++ head_error ++ "; GET fallback failed: ")
      (fetch_digest_by_get codec url get)
fetch_artifact_digest codec url (ok r) get =
    let digest = artifact_digest_from_headers r.x_wasm_sha256 r.etag in
    if is_success r.status_code
    then (if not (text_eq digest "") then ok digest else fetch_digest_by_get codec url get)
    else if not (r.status_code == 405) && not (r.status_code == 501)
    then err ("HEAD " ++ url ++ " returned " ++ r.status)
    else fetch_digest_by_get codec url get

unfoldable pub read_status : Codec → String → Response → Outcome HostReleaseStatus
read_status codec release_url r =
    wrap ("decode GET " ++ release_url ++ ": ")
      (do body ← r.body; codec.decode_status (take max_artifact_error_body_bytes body))

unfoldable pub fetch_host_release_status :
    Codec → String → Outcome Response → Outcome HostReleaseStatus
fetch_host_release_status codec wasm_url reply =
    let release_url = trim_suffix wasm_url "/wasm" ++ "/release" in
    do
      r ← wrap ("GET " ++ release_url ++ " failed: ") reply
      if is_success r.status_code
          then read_status codec release_url r
          else err ("GET " ++ release_url ++ " returned " ++ r.status)

abbrev pub put_request : String → Bytes → WasmFunction → PutRequest
put_request url artifact wf = record {
  url = url;
  artifact_caller = "operator-artifact-sync";
  content_type = "application/wasm";
  x_wasm_sha256 = wf.spec.release.artifact_digest;
  release_generation = format_int wf.spec.release.generation;
  function_identity = wf.spec.release.function_identity;
  body = artifact;
}

-- What the answer to the PUT means.
unfoldable pub read_put_reply : Codec → String → Outcome Response → Outcome (Unit {0})
read_put_reply codec url reply = do
  r ← wrap ("PUT " ++ url ++ " failed: ") reply
  if is_success r.status_code then ok tt else refused_with_body codec "PUT " url r

-- The result of the upload, and the request that was made, which the host may have got before an
-- error as well.
unfoldable pub upload_artifact :
    Codec
    → String
    → Bytes
    → WasmFunction
    → (PutRequest → Outcome Response)
    → Outcome (Unit {0}) × List PutRequest
upload_artifact codec url artifact wf put =
    let request = put_request url artifact wf in
    (read_put_reply codec url (put request), request ∷ [])
