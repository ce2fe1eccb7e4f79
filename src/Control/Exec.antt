-- ===== src/Control/Exec.antt =====
-- The state that publishing works on, and actions over it: a resource, the operator's memory of
-- what it sent, and the messages published so far. An action that returns an error keeps what it
-- changed before.
use sertay_thesis.Prelude.{Bool, Option, none, some, List, [], ◌∷◌, ◌++◌}
use sertay_thesis.Prelude.Int.{ℤ}
use sertay_thesis.Prelude.Text.{String}
use sertay_thesis.Prelude.Time.{Time}
use sertay_thesis.Prelude.Maps.{NamespacedName}
use sertay_thesis.Api.{WasmFunction}
use sertay_thesis.Api.Spec.{ResourceContractSpec}
use sertay_thesis.Api.Status.{WasmFunctionStatus}
use sertay_thesis.Artifact.Http.{Outcome, ok, err}

-- The payloads, one constructor for each action, with the identifier that makes it idempotent first.
pub data Command : Type 0 where
  set_simulation : String → Bool → ℤ → ℤ → Command
  pause_function : String → ℤ → Command
  resume_function : String → ℤ → Command
  set_thresholds : String → ℤ → ℤ → Command
  stage_release : String → ℤ → String → String → String → ResourceContractSpec → Command
  signal_deadline_rejection : String → String → Command
  activate_local : String → ℤ → Command
  set_runtime_mode : String → String → ℤ → Command

pub record ReleaseStageSendState : Type 0 where
  pub command_id : String
  pub sent_at : Time
  pub attempts : ℤ  -- int32

pub record ReleaseActivationSendState : Type 0 where
  pub command_id : String
  pub sent_at : Time

-- The maps of WasmFunctionReconciler, and `sent`, the messages that were written to the
-- broker, newest last.
pub record Control : Type 0 where
  pub wf : WasmFunction
  pub stage_sends : List (NamespacedName × ReleaseStageSendState)
  pub activation_sends : List (NamespacedName × ReleaseActivationSendState)
  pub sent : List (String × Command)

-- A publication fails before its message is written as a whole, or after that, where the
-- broker does not acknowledge it.
pub data PublishFailure : Type 0 where
  unwritten unacknowledged : String → PublishFailure

-- What one run gets from outside: the time, which it reads once, the failure of a publication, and
-- the error of the POST that activates the release of the host.
pub record Env : Type 0 where
  pub now : Time
  pub publish_error : Command → Option PublishFailure
  pub activate_error : Option String

abbrev pub Exec : Type 0 → Type 0
Exec A = Control → Outcome A × Control

abbrev continue : {A B : Type 0} → Outcome A → (A → Exec B) → Exec B
continue (ok a) f s = f a s
continue (err m) f s = (err m, s)

infixl 5 ◌>>=◌ ◌>>◌
abbrev pub ◌>>=◌ : {A B : Type 0} → Exec A → (A → Exec B) → Exec B
◌>>=◌ m f s = continue (m s).0 f (m s).1

abbrev pub ◌>>◌ : {A B : Type 0} → Exec A → Exec B → Exec B
m >> n = m >>= λ _. n

abbrev pub pure : {A : Type 0} → A → Exec A
pure a s = (ok a, s)

abbrev pub raise : {A : Type 0} → String → Exec A
raise m s = (err m, s)

-- Changes the status of the resource.
abbrev pub set_status : (WasmFunctionStatus → WasmFunctionStatus) → Exec (Unit {0})
set_status f s = (ok tt, record s { wf = record s.wf { status = f s.wf.status } })

-- Writes a message.
abbrev pub write : String → Command → Control → Control
write topic command s = record s { sent = s.sent ++ (topic, command) ∷ [] }

abbrev publish_result : Option PublishFailure → String → Command → Exec (Unit {0})
publish_result none topic command s = (ok tt, write topic command s)
publish_result (some (unwritten m)) topic command s = (err m, s)
publish_result (some (unacknowledged m)) topic command s = (err m, write topic command s)

-- publishControl; a message that was written stays written where an error follows.
unfoldable pub publish_control : Env → String → Command → Exec (Unit {0})
publish_control env topic command = publish_result (env.publish_error command) topic command
