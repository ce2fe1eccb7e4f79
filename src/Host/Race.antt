-- ===== src/Host/Race.antt =====
-- Two uploads at once (handleWasmUpload of edge/host/main.go).
use sertay_thesis.Prelude.{◌≡◌, none, some, arith}
use sertay_thesis.Prelude.Int.{◌<ℤ◌}
use sertay_thesis.Artifact.Http.{Outcome, ok}
use sertay_thesis.Host.State.{Host, reject}
use sertay_thesis.Host.Upload.{Received, check_generation, stage}
use sertay_thesis.Host.Activate.{Renames, activate_staged_release}
use sertay_thesis.Host.Slots.{activated_generation}

-- The end of an upload that passed its check, and the activation of what it staged.
abbrev pub stage_and_activate :
    {M : Type 0} → Host M → Received M → Renames → Outcome (Unit {0}) × Host M
stage_and_activate h r renames = activate_staged_release (stage h r) r.declared.generation renames

-- Two uploads that both passed their check before either was staged: the newer one is staged and
-- activated, then the older one is staged and activated. Where the renames succeed, the host goes
-- back to the older generation, though the check refuses that generation by then.
pub concurrent_rollback :
    {M : Type 0} (h : Host M) (old new : Received M) (renames renames' : Renames)
    → check_generation h old.declared ≡ none
    → check_generation h new.declared ≡ none
    → old.declared.generation <ℤ new.declared.generation
    → (stage_and_activate h new renames).0 ≡ ok tt
    → (stage_and_activate (stage_and_activate h new renames).1 old renames').0 ≡ ok tt
    → let active = (stage_and_activate h new renames).1 in
      (check_generation active old.declared ≡ some (reject 409 "stale release generation"))
      × ((stage_and_activate active old renames').1.active_generation <ℤ active.active_generation)
unfolding check_generation
concurrent_rollback h old new renames renames' p q l f s =
    let a = activated_generation (stage h new) new.declared.generation renames f in
    let active = (stage_and_activate h new renames).1 in
    let b = activated_generation (stage active old) old.declared.generation renames' s in
    (ground (arith, a), ground (arith, a, b))
