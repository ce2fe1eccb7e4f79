-- ===== src/Host/Invariant.antt =====
-- The order of the two release slots of the edge host, and what an upload or an activation changes
-- (handleWasmUpload, activateStagedRelease and handleRelease of edge/host/main.go).
use sertay_thesis.Prelude.{
  ◌≡◌, inl, inr, refl, Bool, true, false, Option, none, some, arith, if-cases, Option-cases,
}
use sertay_thesis.Prelude.Int.{ℤ, pos, ltb_ℤ, leb_ℤ, eq_ℤ, ◌≤ℤ◌, ◌<ℤ◌}
use sertay_thesis.Prelude.Text.{String}
use sertay_thesis.Artifact.Http.{Outcome, ok, err}
use sertay_thesis.Host.State.{CompiledRelease, Host}
use sertay_thesis.Host.Upload.{
  UploadRequest, Declared, Received, Checked, passed, refused, receive_upload, check_generation,
  check_staged, older_than_staged, stage, finish_upload, answer_upload, handle_wasm_upload,
}
use sertay_thesis.Host.Activate.{
  Renames, ReleaseRequest, get, post, other_method, backed_up, restored, activated_with,
  move_staged, swap_releases, move_error, activation_reply, activate_staged,
  activate_staged_release, post_release, handle_release,
}

-- A release that is staged is newer than the active one.
abbrev pub is_ahead : {M : Type 0} → ℤ → Option (CompiledRelease M) → Bool
is_ahead active none = true
is_ahead active (some staged) = ltb_ℤ active staged.generation

abbrev pub IsOrdered : {M : Type 0} → Host M → Type 0
IsOrdered h = is_ahead h.active_generation h.staged_release ≡ true

newer_than_staged :
    {M : Type 0} (d : Declared) (slot : Option (CompiledRelease M))
    → older_than_staged d slot ≡ false
    → check_staged d slot ≡ none
    → (c : CompiledRelease M) → slot ≡ some c
    → c.generation <ℤ d.generation
unfolding check_staged
newer_than_staged d none p q c e = ground arith
newer_than_staged d (some staged) p q c e = ground arith

-- An upload that goes on to the staging is newer than both slots.
pub check_generation-newer :
    {M : Type 0} (h : Host M) (d : Declared)
    → check_generation h d ≡ none
    → (h.active_generation <ℤ d.generation)
      × ((c : CompiledRelease M) → h.staged_release ≡ some c → c.generation <ℤ d.generation)
unfolding check_generation
check_generation-newer h d p =
    (ground arith, newer_than_staged d h.staged_release (ground arith) (ground arith))

-- What an operation on the host keeps: the order of the slots, and a generation that is not lower.
abbrev pub Advances : {M : Type 0} → Host M → Host M → Type 0
Advances h h' = IsOrdered h' × (h.active_generation ≤ℤ h'.active_generation)

abbrev AdvancesTo : {A : Type 0} {M : Type 0} → Host M → A × Host M → Type 0
AdvancesTo h x = Advances h x.1

stage-Advances :
    {M : Type 0} (h : Host M) (r : Received M)
    → check_generation h r.declared ≡ none
    → Advances h (stage h r)
unfolding stage
stage-Advances h r p = ground (arith, check_generation-newer h r.declared p)

finish-Advances :
    {M : Type 0} (h : Host M) (e : Bool) (r : Received M)
    → IsOrdered h
    → Advances h (finish_upload h e r).1
unfolding finish_upload
finish-Advances h e r o = elim (Option-cases (check_generation h r.declared)) [
  | inl p ↦
      rw (p, finish_upload)
        (if-cases (AdvancesTo h) e (λ _. (o, ground arith)) (λ _. stage-Advances h r p))
  | inr (reply, p) ↦ rw (p, finish_upload) (o, ground arith)
]

answer-Advances :
    {M : Type 0} (h : Host M) (e : Bool) (c : Checked (Received M))
    → IsOrdered h
    → Advances h (answer_upload h e c).1
unfolding answer_upload
answer-Advances h e (refused reply) o = (o, ground arith)
answer-Advances h e (passed received) o = finish-Advances h e received o

upload-Advances :
    {M : Type 0} (h : Host M) (r : UploadRequest M)
    → IsOrdered h
    → Advances h (handle_wasm_upload h r).1
unfolding handle_wasm_upload
upload-Advances h r o = answer-Advances h r.rename_error (receive_upload r) o

move-Advances :
    {M : Type 0} (h : Host M) (c : CompiledRelease M) (e : Option String)
    → h.staged_release ≡ some c
    → IsOrdered h
    → Advances h (move_staged h c e).1
unfolding move_staged restored activated_with
move-Advances h c none s o = (refl, ground arith)
move-Advances h c (some m) s o = (o, ground arith)

swap-Advances :
    {M : Type 0} (h : Host M) (c : CompiledRelease M) (renames : Renames)
    → h.staged_release ≡ some c
    → IsOrdered h
    → Advances h (swap_releases h c renames).1
unfolding swap_releases backed_up
swap-Advances h c renames s o = elim (Option-cases renames.backup_error) [
  | inl p ↦
      rw (p, swap_releases) (move-Advances (backed_up h) c (move_error (backed_up h) c renames) s o)
  | inr (m, p) ↦ rw (p, swap_releases) (o, ground arith)
]

staged-Advances :
    {M : Type 0} (h : Host M) (g : ℤ) (slot : Option (CompiledRelease M)) (renames : Renames)
    → h.staged_release ≡ slot
    → IsOrdered h
    → Advances h (activate_staged h g slot renames).1
unfolding activate_staged
staged-Advances h g none renames s o = (o, ground arith)
staged-Advances h g (some c) renames s o =
    if-cases (AdvancesTo h) (eq_ℤ c.generation g) (λ _. swap-Advances h c renames s o)
      (λ _. (o, ground arith))

activate-Advances :
    {M : Type 0} (h : Host M) (g : ℤ) (renames : Renames)
    → IsOrdered h
    → Advances h (activate_staged_release h g renames).1
unfolding activate_staged_release
activate-Advances h g renames o =
    if-cases (AdvancesTo h) (eq_ℤ g h.active_generation) (λ _. (o, ground arith))
      (λ _. staged-Advances h g h.staged_release renames refl o)

reply-host : {M : Type 0} (g : ℤ) (x : Outcome (Unit {0}) × Host M) → (activation_reply g x).1 ≡ x.1
reply-host g (ok u, h) = refl
reply-host g (err m, h) = refl

post-Advances :
    {M : Type 0} (h : Host M) (g : Option ℤ) (renames : Renames)
    → IsOrdered h
    → Advances h (post_release h g renames).1
unfolding post_release
post-Advances h none renames o = (o, ground arith)
post-Advances h (some g) renames o =
    if-cases (AdvancesTo h) (leb_ℤ g (pos 0)) (λ _. (o, ground arith))
      (λ _.
        rw (reply-host g (activate_staged_release h g renames)) (activate-Advances h g renames o))

release-Advances :
    {M : Type 0} (h : Host M) (r : ReleaseRequest) → IsOrdered h → Advances h (handle_release h r).1
unfolding handle_release
release-Advances h get o = (o, ground arith)
release-Advances h (post g renames) o = post-Advances h g renames o
release-Advances h other_method o = (o, ground arith)

-- A request of the operator, handled from its start to its end.
pub data Step {M : Type 0} : Host M → Host M → Type 0 where
  upload : (h : Host M) (r : UploadRequest M) → Step h (handle_wasm_upload h r).1
  release : (h : Host M) (r : ReleaseRequest) → Step h (handle_release h r).1

infixr 5 ◌∷◌
pub data Run {M : Type 0} : Host M → Host M → Type 0 where
  done : (h : Host M) → Run h h
  ◌∷◌ : {h h' h'' : Host M} → Step h h' → Run h' h'' → Run h h''

Step-Advances : {M : Type 0} {h h' : Host M} → Step h h' → IsOrdered h → Advances h h'
Step-Advances (upload h r) o = upload-Advances h r o
Step-Advances (release h r) o = release-Advances h r o

-- From a host whose staged release, if there is one, is newer than the active one, any sequence
-- of uploads and release requests, each handled without another one in between, keeps it so, and
-- the active generation never goes down.
pub run-Advances : {M : Type 0} {h h' : Host M} → Run h h' → IsOrdered h → Advances h h'
run-Advances (done h) o = (o, ground arith)
run-Advances (step ∷ run) o =
    let a = Step-Advances step o in let b = run-Advances run a.0 in (b.0, ground arith)
