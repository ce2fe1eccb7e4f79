-- ===== src/Host/Slots.antt =====
-- What one upload or one activation leaves in the release slots (handleWasmUpload and
-- activateStagedRelease of edge/host/main.go).
use sertay_thesis.Prelude.{
  ◌≡◌, ◌≢◌, refl, sym, ◌∙◌, Bool, true, false, ◌||◌, Option, none, some, is_some, arith, if-cases,
}
use sertay_thesis.Prelude.Int.{ℤ, eq_ℤ, eq_ℤ_iff}
use sertay_thesis.Prelude.Text.{String, text_eq_refl}
use sertay_thesis.Artifact.Http.{Outcome, ok, err}
use sertay_thesis.Host.State.{CompiledRelease, Host, Reply}
use sertay_thesis.Host.Upload.{
  Received, accepted, check_generation, check_staged, stage, finish_upload,
}
use sertay_thesis.Host.Activate.{
  Renames, backed_up, restored, activated_with, move_staged, swap_releases, move_error,
  activate_staged, activate_staged_release,
}
use sertay_thesis.Host.Invariant.{check_generation-newer}

-- The active slot of `h'` holds the release `c`, and nothing is staged.
pub record IsActivated {M : Type 0} (c : CompiledRelease M) (h : Host M) : Type 0 where
  pub module_ : h.module_ ≡ c.module_
  pub digest : h.wasm_digest ≡ c.digest
  pub generation : h.active_generation ≡ c.generation
  pub function : h.active_function ≡ c.function
  pub staged : h.staged_release ≡ none

-- The slots of two hosts agree, in memory.
pub record IsSame {M : Type 0} (h h' : Host M) : Type 0 where
  pub module_ : h'.module_ ≡ h.module_
  pub digest : h'.wasm_digest ≡ h.wasm_digest
  pub generation : h'.active_generation ≡ h.active_generation
  pub function : h'.active_function ≡ h.active_function
  pub staged : h'.staged_release ≡ h.staged_release

-- The generation is the staged one.
abbrev pub is_staged : {M : Type 0} → Option (CompiledRelease M) → ℤ → Bool
is_staged none g = false
is_staged (some c) g = eq_ℤ c.generation g

-- One of the two renames of an activation of `c` fails.
abbrev pub rename_fails : {M : Type 0} → Host M → CompiledRelease M → Renames → Bool
rename_fails h c renames =
    is_some renames.backup_error || is_some (move_error (backed_up h) c renames)

-- How an activation can end.
pub data Activation {M : Type 0} (h : Host M) (g : ℤ) (renames : Renames)
    : Outcome (Unit {0}) × Host M → Type 0 where
  already : g ≡ h.active_generation → Activation h g renames (ok tt, h)
  unknown :
      (m : String)
      → g ≢ h.active_generation
      → is_staged h.staged_release g ≡ false
      → Activation h g renames (err m, h)
  swapped :
      (c : CompiledRelease M) (h' : Host M)
      → g ≢ h.active_generation
      → h.staged_release ≡ some c
      → c.generation ≡ g
      → rename_fails h c renames ≡ false
      → IsActivated c h'
      → Activation h g renames (ok tt, h')
  failed :
      (c : CompiledRelease M) (m : String) (h' : Host M)
      → g ≢ h.active_generation
      → h.staged_release ≡ some c
      → c.generation ≡ g
      → rename_fails h c renames ≡ true
      → IsSame h h'
      → Activation h g renames (err m, h')

-- What is known where a staged release is to be activated.
record IsPending {M : Type 0} (h : Host M) (g : ℤ) (c : CompiledRelease M) : Type 0 where
  inactive : g ≢ h.active_generation
  held : h.staged_release ≡ some c
  named : c.generation ≡ g

move-Activation :
    {M : Type 0} (h : Host M) (g : ℤ) (c : CompiledRelease M) (renames : Renames)
    (e : Option String)
    → IsPending h g c
    → rename_fails h c renames ≡ is_some e
    → Activation h g renames (move_staged (backed_up h) c e)
unfolding move_staged restored activated_with backed_up
move-Activation h g c renames none i p =
    swapped c _ i.inactive i.held i.named p
      (record { module_ = refl; digest = refl; generation = refl; function = refl; staged = refl })
move-Activation h g c renames (some m) i p =
    failed c _ _ i.inactive i.held i.named p
      (record { module_ = refl; digest = refl; generation = refl; function = refl; staged = refl })

swap-Activation :
    {M : Type 0} (h : Host M) (g : ℤ) (c : CompiledRelease M) (renames : Renames)
    → IsPending h g c
    → Activation h g renames (swap_releases h c renames)
unfolding swap_releases
swap-Activation h g c renames i =
    elim (renames.backup_error)
      as (λ e.
        let r = record renames { backup_error = e } in Activation h g r (swap_releases h c r)) [
          | none ↦
              let r = record renames { backup_error = none } in
              move-Activation h g c r (move_error (backed_up h) c r) i refl
          | some m ↦ failed c _ _ i.inactive i.held i.named refl (record {
            module_ = refl;
            digest = refl;
            generation = refl;
            function = refl;
            staged = refl;
          })
        ]

staged-Activation :
    {M : Type 0} (h : Host M) (g : ℤ) (slot : Option (CompiledRelease M)) (renames : Renames)
    → g ≢ h.active_generation
    → h.staged_release ≡ slot
    → Activation h g renames (activate_staged h g slot renames)
unfolding activate_staged
staged-Activation h g none renames n s = unknown _ n (rw s refl)
staged-Activation h g (some c) renames n s =
    if-cases (Activation h g renames) (eq_ℤ c.generation g)
      (λ p.
        swap-Activation h g c renames
          (record { inactive = n; held = s; named = (eq_ℤ_iff c.generation g).0 p }))
      (λ p. unknown _ n (rw s p))

-- An activation succeeds where the generation is active already, and then changes nothing, or where
-- it is staged and not active and both renames succeed, and then the active module, digest,
-- generation and function are those of the staged release and nothing is staged any more. It fails
-- only for a generation that is not active: where that is not staged, and then changes nothing, or
-- where a rename fails, and then both slots are as they were.
pub Activation-cases :
    {M : Type 0} (h : Host M) (g : ℤ) (renames : Renames)
    → Activation h g renames (activate_staged_release h g renames)
unfolding activate_staged_release
Activation-cases h g renames =
    if-cases (Activation h g renames) (eq_ℤ g h.active_generation)
      (λ p. already ((eq_ℤ_iff g h.active_generation).0 p))
      (λ p.
        staged-Activation h g h.staged_release renames
          (ground (arith, eq_ℤ_iff g h.active_generation)) refl)

generation-of :
    {M : Type 0} {h : Host M} {g : ℤ} {renames : Renames} {x : Outcome (Unit {0}) × Host M}
    → Activation h g renames x
    → x.0 ≡ ok tt
    → x.1.active_generation ≡ g
generation-of (already p) e = sym p
generation-of (unknown m n p) e = ground arith
generation-of (swapped c h' n s p r i) e = i.generation ∙ p
generation-of (failed c m h' n s p r i) e = ground arith

-- The generation that was activated is the active one.
pub activated_generation :
    {M : Type 0} (h : Host M) (g : ℤ) (renames : Renames)
    → (activate_staged_release h g renames).0 ≡ ok tt
    → (activate_staged_release h g renames).1.active_generation ≡ g
activated_generation h g renames e = generation-of (Activation-cases h g renames) e

check-after :
    {M : Type 0} (h : Host M) (r : Received M)
    → check_generation h r.declared ≡ none
    → check_generation (stage h r) r.declared ≡ some (accepted "staged" r.declared)
unfolding check_generation check_staged stage
check-after h r p = ground (
  arith,
  check_generation-newer h r.declared p,
  text_eq_refl r.declared.digest,
  text_eq_refl r.declared.function,
)

finish-staged :
    {M : Type 0} (h : Host M) (r : Received M)
    → check_generation h r.declared ≡ none
    → finish_upload h false r ≡ (accepted "staged" r.declared, stage h r)
unfolding finish_upload
finish-staged h r p = rw (p, finish_upload) refl

finish-known :
    {M : Type 0} (h : Host M) (e : Bool) (r : Received M) {reply : Reply}
    → check_generation h r.declared ≡ some reply
    → finish_upload h e r ≡ (reply, h)
unfolding finish_upload
finish-known h e r p = rw (p, finish_upload) refl

-- A received release that was staged can be sent again: the second answer is the same, and the host
-- does not change any more, whether a rename would fail or not.
pub stage_idempotent :
    {M : Type 0} (h : Host M) (r : Received M) (e : Bool)
    → check_generation h r.declared ≡ none
    → finish_upload (finish_upload h false r).1 e r ≡ finish_upload h false r
stage_idempotent h r e p =
    rw (finish-staged h r p) (finish-known (stage h r) e r (check-after h r p))
