-- ===== src/Compute/Client/Twice.antt =====
-- A kernel that the caller releases, as the comment of `CreateKernel` allows.
use smooth_demon.Prelude.{
  ℕ, ◌<◌, ◌≡◌, refl, ap, ◌∙◌, true, false, List, [], ◌∷◌, ◌++◌, arith, All, All-append, Bool-cases,
  inl, inr,
}
use smooth_demon.Compute.Objects.{
  Object, Call, release, Runtime, no_objects, perform, performs, performs-append, allowed,
}
use smooth_demon.Compute.Objects.Sharing.{same_object_refl}
use smooth_demon.Compute.Objects.Accounts.{Frees, releases, perform_all-account}
use smooth_demon.Compute.Context.{shutdown}
use smooth_demon.Compute.Context.Ownership.{shutdown-Frees}
use smooth_demon.Compute.Program.{OpenClProgram}
use smooth_demon.Compute.Program as Program
use smooth_demon.Compute.Program.Releases as ProgramReleases
use smooth_demon.Compute.Buffer.{OpenClBuffer}
use smooth_demon.Compute.Buffer as Buffer
use smooth_demon.Compute.Buffer.Ownership as BufferOwnership
use smooth_demon.Compute.Client.{
  Client, new_client, Run, destroy_programs, destroy_buffers, tear_down,
}
use smooth_demon.Compute.Client.Parts.{held, held_by, held_by-program}
use smooth_demon.Compute.Client.Balance.{tear_down-Turns, Run-tear_down}

destroy_programs-Frees : (ps : List OpenClProgram) → All Frees (destroy_programs ps)
unfolding destroy_programs
destroy_programs-Frees [] = tt
destroy_programs-Frees (p ∷ ps) =
    All-append Frees (Program.destroy p).1 (destroy_programs ps) (ProgramReleases.destroy-Frees p)
      (destroy_programs-Frees ps)

destroy_buffers-Frees : (bs : List OpenClBuffer) → All Frees (destroy_buffers bs)
unfolding destroy_buffers
destroy_buffers-Frees [] = tt
destroy_buffers-Frees (b ∷ bs) =
    All-append Frees (Buffer.destroy b).1 (destroy_buffers bs) (BufferOwnership.destroy-Frees b)
      (destroy_buffers-Frees bs)

tear_down-Frees : (t : Client) → All Frees (tear_down t)
unfolding tear_down
tear_down-Frees t =
    All-append Frees (destroy_buffers t.buffers) _ (destroy_buffers-Frees t.buffers) (
      All-append Frees (destroy_programs t.programs) (shutdown t.ocl).1
        (destroy_programs-Frees t.programs) (shutdown-Frees t.ocl))

-- Calls that release an object as often as it is held are at fault once it is held less often.
less-faults :
    (o : Object) (cs : List Call) (r less : Runtime)
    → All Frees cs
    → r o ≡ releases o cs
    → less o < r o
    → performs cs less ≡ false
less-faults o cs r less frees all fewer = elim (Bool-cases (performs cs less)) [
  | inl ok ↦
      let account = perform_all-account o cs less ok frees in
      absurd (omega (arith, account, all, fewer))
  | inr fault ↦ fault
]

calls_ok :
    (cs ds : List Call) → performs (cs ++ ds) no_objects ≡ true → performs cs no_objects ≡ true
calls_ok cs ds ok = ground (arith, performs-append cs ds no_objects, ok)

released_less : (o : Object) (r : Runtime) → 0 < r o → perform (release o) r o < r o
unfolding perform
released_less o r h = rw (same_object_refl o) (omega (arith, h))

releasable : (o : Object) (r : Runtime) → 0 < r o → allowed (release o) r ≡ true
unfolding allowed
releasable o r h = ground (arith, h)

tear_down-releases : (t : Client) (o : Object) → held t o ≡ releases o (tear_down t)
tear_down-releases t o =
    let (ok, end) = tear_down-Turns t in
    let account = perform_all-account o (tear_down t) (held t) ok (tear_down-Frees t) in
    let none_left = ap (λ r. r o) end in omega (arith, account, none_left)

held-kernel :
    (t : Client) (before after : List OpenClProgram) (p : OpenClProgram)
    (kernels_before kernels_after : List ℕ) (k : ℕ)
    → t.programs ≡ before ++ p ∷ after
    → p.kernels ≡ kernels_before ++ k ∷ kernels_after
    → 0 < held t (Object.kernel k)
held-kernel t before after p kernels_before kernels_after k e f =
    let split =
      ap (λ ps. held_by t.ocl ps t.buffers (Object.kernel k)) e
      ∙ ap (λ r. r (Object.kernel k)) (held_by-program t.ocl before after t.buffers p) in
    let its_own = ProgramReleases.held-kernel p kernels_before kernels_after k f in
    omega (arith, split, its_own)

-- At any time in the life of a client, a kernel that one of its programs has made is released by the
-- caller: the destructors then release a kernel that is not held any more.
pub Run-releases_twice :
    (t : Client) (calls : List Call) (before after : List OpenClProgram) (p : OpenClProgram)
    (kernels_before kernels_after : List ℕ) (k : ℕ)
    → Run new_client calls t
    → t.programs ≡ before ++ p ∷ after
    → p.kernels ≡ kernels_before ++ k ∷ kernels_after
    → (performs (calls ++ release (Object.kernel k) ∷ []) no_objects ≡ true)
      × (performs (calls ++ release (Object.kernel k) ∷ tear_down t) no_objects ≡ false)
unfolding performs allowed
Run-releases_twice t calls before after p kernels_before kernels_after k run e f =
    let o = Object.kernel k in
    let (ok, at_end, clean) = Run-tear_down t calls run in
    let here = held-kernel t before after p kernels_before kernels_after k e f in
    let ran = calls_ok calls (tear_down t) ok in
    let fault =
      less-faults o (tear_down t) (held t) (perform (release o) (held t)) (tear_down-Frees t)
        (tear_down-releases t o) (released_less o (held t) here) in
    let may = releasable o (held t) here in
    (
      rw (performs-append calls (release o ∷ []) no_objects, ran, at_end, may) refl,
      rw (performs-append calls (release o ∷ tear_down t) no_objects, ran, at_end, may, fault) refl,
    )
