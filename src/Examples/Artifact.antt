-- ===== src/Examples/Artifact.antt =====
-- The artifact theorems at a source and a host that answer.
use sertay_thesis.Prelude.{◌≡◌, ◌≢◌, refl, none, [], ◌∷◌, arith}
use sertay_thesis.Prelude.Int.{pos}
use sertay_thesis.Prelude.Text.{text_eq_iff, to_lower, trim_space}
use sertay_thesis.Artifact.Http.{
  Bytes, ok, Codec, Response, Replies, HostReleaseStatus, operator_artifact_url, fetch_artifact,
  read_artifact, check_length, check_digest, fetch_artifact_digest, fetch_host_release_status,
  read_status, upload_artifact, read_put_reply, put_request, host_wasm_url,
}
use sertay_thesis.Artifact.Reconcile.{
  reconcile_artifact, host_ready, check_declared, sync_host, with_host_status, push_artifact,
}
use sertay_thesis.Artifact.Fetch.{IsVerified, fetch_artifact-IsVerified}
use sertay_thesis.Artifact.Sync.{IsSynced, reconcile-IsSynced}
use sertay_thesis.Artifact.Upload.{Uploads, reconcile-Uploads}
use sertay_thesis.Release.{
  normalize_artifact_digest, artifact_digest_from_headers, all_hex, is_hex_digit,
  host_release_matches,
}
use sertay_thesis.Examples.Data.{digest, reader}

abbrev pub module_bytes : Bytes
module_bytes = 0 ∷ 97 ∷ 115 ∷ 109 ∷ []

abbrev pub empty_host : HostReleaseStatus
empty_host = record {
  active_generation = pos 4;
  active_digest = "";
  active_function = "dht-reader";
  staged_generation = pos 0;
  staged_digest = "";
  staged_function = "";
}

-- Every body has the declared digest.
abbrev pub codec : Codec
codec = record { digest_bytes = λ _. digest; text_of = λ _. ""; decode_status = λ _. ok empty_host }

abbrev pub answer : Response
answer = record {
  status_code = 200;
  status = "200 OK";
  x_wasm_sha256 = digest;
  etag = "";
  body = ok module_bytes;
}

abbrev pub replies : Replies
replies = record {
  head_source = ok answer;
  get_source_digest = ok answer;
  get_release = ok answer;
  get_source = ok answer;
  put_host = λ _. ok answer;
}

fetched : fetch_artifact codec "http://artifacts/dht.wasm" (ok answer) ≡ ok (module_bytes, digest)
unfolding fetch_artifact read_artifact check_length check_digest artifact_digest_from_headers
    normalize_artifact_digest to_lower trim_space all_hex is_hex_digit
fetched = refl

fetch_artifact-IsVerified_example : IsVerified codec (module_bytes, digest)
fetch_artifact-IsVerified_example =
    fetch_artifact-IsVerified codec "http://artifacts/dht.wasm" (ok answer) (module_bytes, digest)
      fetched

source_given : operator_artifact_url reader ≢ ""
unfolding operator_artifact_url trim_space
source_given = ground (arith, text_eq_iff "http://artifacts/dht.wasm" "")

synced : (reconcile_artifact codec none reader replies).1 ≡ none
unfolding fetch_artifact read_artifact check_length check_digest artifact_digest_from_headers
    normalize_artifact_digest to_lower trim_space all_hex is_hex_digit reconcile_artifact
    operator_artifact_url fetch_artifact_digest check_declared sync_host fetch_host_release_status
    read_status host_ready host_release_matches with_host_status push_artifact upload_artifact
    read_put_reply
synced = refl

-- The run uploaded the module once.
uploaded_once :
    (reconcile_artifact codec none reader replies).2
    ≡ put_request (host_wasm_url none reader) module_bytes reader ∷ []
unfolding fetch_artifact read_artifact check_length check_digest artifact_digest_from_headers
    normalize_artifact_digest to_lower trim_space all_hex is_hex_digit reconcile_artifact
    operator_artifact_url fetch_artifact_digest check_declared sync_host fetch_host_release_status
    read_status host_ready host_release_matches with_host_status push_artifact upload_artifact
    read_put_reply
uploaded_once = refl

reconcile-IsSynced_example :
    IsSynced codec none reader replies (reconcile_artifact codec none reader replies)
reconcile-IsSynced_example = reconcile-IsSynced codec reader replies none source_given synced

reconcile-Uploads_example :
    Uploads codec none reader replies (reconcile_artifact codec none reader replies)
reconcile-Uploads_example = reconcile-Uploads codec reader replies none
