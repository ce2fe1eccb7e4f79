-- ===== src/Host/Serve.antt =====
-- The module that the host serves, and how it is loaded (handleWasm, setWasmDigestHeaders, initWasm,
-- reloadWasmModule, compileWasmModule, validateWasmModule and digestFile of edge/host/main.go).
-- http.ServeFile is not part of the repository: a reply says only which file it serves.
use sertay_thesis.Prelude.{Bool, ◌||◌, Option, none, some, if◌then◌else◌}
use sertay_thesis.Prelude.Int.{ℤ}
use sertay_thesis.Prelude.Text.{String, ◌++◌, text_eq, trim_space}
use sertay_thesis.Artifact.Http.{Bytes, Outcome, ok, err}
use sertay_thesis.Host.State.{Host, Reply, reject}
use sertay_thesis.Host.Upload.{UploadRequest, handle_wasm_upload}

-- The values of X-Wasm-Sha256 and of ETag; without a digest neither header is set.
unfoldable pub wasm_digest_headers : String → Option (String × String)
wasm_digest_headers digest =
    if text_eq digest "" then none else some (digest, "\"sha256:" ++ digest ++ "\"")

-- A served file with the headers of its digest, or what a handler wrote.
pub data WasmReply : Type 0 where
  served : String → Option (String × String) → WasmReply
  replied : Reply → WasmReply

-- An upload carries what the other calls give it; the other methods read nothing of it.
unfoldable pub handle_wasm : {M : Type 0} → String → UploadRequest M → Host M → WasmReply × Host M
handle_wasm method r h =
    let (reply, uploaded) = handle_wasm_upload h r in
    if text_eq method "GET" || text_eq method "HEAD"
    then (served h.wasm_path (wasm_digest_headers h.wasm_digest), h)
    else if text_eq method "PUT"
    then (replied reply, uploaded)
    else (replied (reject 405 "method not allowed"), h)

-- What wasmtime answers for the module of a file.
pub record Compilation (M : Type 0) : Type 0 where
  pub loaded : Outcome M
  pub instantiate_error : Option String
  pub has_process_event : Bool

unfoldable pub validate_wasm_module : {M : Type 0} → Compilation M → M → Outcome M
validate_wasm_module c m = elim (c.instantiate_error) [
  | some e ↦ err ("instantiate failed: " ++ e)
  | none ↦
      if c.has_process_event then ok m else err "export 'process_event' not found in wasm module"
]

abbrev invalid_module : {M : Type 0} → String → Outcome M → Outcome M
invalid_module path (ok m) = ok m
invalid_module path (err e) = err ("invalid wasm module " ++ path ++ ": " ++ e)

unfoldable pub compile_wasm_module : {M : Type 0} → String → Compilation M → Outcome M
compile_wasm_module path c = elim (c.loaded) [
  | err e ↦ err ("failed to load wasm module " ++ path ++ ": " ++ e)
  | ok m ↦ invalid_module path (validate_wasm_module c m)
]

-- The file is read again for its digest; an error leaves the host as it was.
unfoldable pub reload_wasm_module :
    {M : Type 0}
    → (Bytes → String)
    → String
    → Compilation M
    → Outcome Bytes
    → Host M
    → Option String × Host M
reload_wasm_module digest_bytes path c file h = elim (compile_wasm_module path c) [
  | err e ↦ (some e, h)
  | ok m ↦ elim file [
    | err e ↦ (some ("read wasm module " ++ path ++ " for digest: " ++ e), h)
    | ok bytes ↦ (none, record h { module_ = m; wasm_digest = digest_bytes bytes })
  ]
]

abbrev text_or : String → String → String
text_or s default = if text_eq s "" then default else s

-- The environment variables, with the number that Sscanf reads from RELEASE_GENERATION, if any.
pub record HostEnvironment : Type 0 where
  pub wasm_path : String
  pub function_identity : String
  pub release_generation : Option ℤ

abbrev generation_or : Option ℤ → ℤ → ℤ
generation_or none generation = generation
generation_or (some n) generation = n

unfoldable pub init_wasm :
    {M : Type 0}
    → HostEnvironment
    → (Bytes → String)
    → Compilation M
    → Outcome Bytes
    → Host M
    → Option String × Host M
init_wasm environment digest_bytes c file h =
    let path = text_or environment.wasm_path "dht_reader.wasm" in
    let (error, loaded) =
      reload_wasm_module digest_bytes path c file (record h { wasm_path = path }) in
    elim error [
      | some e ↦ (some e, loaded)
      | none ↦ (
        none,
        record loaded {
          active_function = text_or (trim_space environment.function_identity) "dht-reader";
          active_generation = generation_or environment.release_generation loaded.active_generation;
        },
      )
    ]
