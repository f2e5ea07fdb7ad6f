-- ===== src/Compute/Client/Balance.antt =====
-- Everything that a client creates is released once, and nothing is used that is not there.
use mathlib.Core.Path.{fun_ext, subst}
use smooth_demon.Prelude.{
  ◌≡◌, refl, sym, ap, ◌∙◌, true, List, [], ◌∷◌, ◌++◌, arith, All, All-append, All-parts, All-imp,
  inl, inr,
}
use smooth_demon.Compute.Objects.{
  Call, no_objects, performs, perform_all, Turns, Turns-append, Turns-nil,
}
use smooth_demon.Compute.Objects.Sharing.{both}
use smooth_demon.Compute.Context.{OpenClContext, Cl, initialize, shutdown}
use smooth_demon.Compute.Context.Ownership.{shuts_down, initializes}
use smooth_demon.Compute.Context.Ownership as Context
use smooth_demon.Compute.Program.{OpenClProgram, opencl_program}
use smooth_demon.Compute.Program as Program
use smooth_demon.Compute.Program.Ownership.{step, opencl_program_lem}
use smooth_demon.Compute.Program.Kept.{step_keeps}
use smooth_demon.Compute.Buffer.Ownership as BufferOwnership
use smooth_demon.Compute.Buffer.{OpenClBuffer, map_internal, unmap}
use smooth_demon.Compute.Buffer as Buffer
use smooth_demon.Compute.Buffer.Ownership.{map_internal-Turns, unmap-Turns}
use smooth_demon.Compute.Client.{
  Client, new_client, Step, constructs_program, works_on_program, destroys_program,
  constructs_buffer, maps, unmaps, destroys_buffer, Run, stays, then_step, destroy_programs,
  destroy_buffers, tear_down,
}
use smooth_demon.Compute.Client.Parts.{
  of_parts, held_by, held, beside_program, beside_buffer, held_by-no_program, held_by-program,
}
use smooth_demon.Compute.Client.Among.{
  InUse, queue-Holds, on_context, works-Turns, destroys_program-Turns, on_buffer,
  constructs_buffer-Turns, destroys_buffer-Turns,
}

abbrev IsValid : Client → Type 0
IsValid s = Context.IsValid s.ocl × All (InUse s.ocl) s.programs

-- A program among others, and the others.
chosen-InUse :
    (ocl : OpenClContext) (ps before after : List OpenClProgram) (p : OpenClProgram)
    → ps ≡ before ++ p ∷ after
    → All (InUse ocl) ps
    → InUse ocl p × All (InUse ocl) before × All (InUse ocl) after
chosen-InUse ocl ps before after p e all =
    let (left, (here, right)) =
      All-parts (InUse ocl) before (p ∷ after) (subst (λ qs. All (InUse ocl) qs) e all) in
    (here, left, right)

initialized-InUse :
    (cl : Cl) (ocl : OpenClContext) (p : OpenClProgram)
    → Context.IsValid ocl
    → InUse ocl p
    → InUse (initialize cl ocl).1 p
initialized-InUse cl ocl p v (inl null) = inl null
initialized-InUse cl ocl p v (inr same) = elim (Context.initialize-context cl ocl v) [
  | inl null ↦ inl (same ∙ null)
  | inr kept ↦ inr (same ∙ sym kept)
]

Step-IsValid : {s t : Client} {calls : List Call} → Step s calls t → IsValid s → IsValid t
unfolding Context.step
Step-IsValid {s} (Step.initializes cl) (v, all) = (
  (Context.step-Turns (initializes cl) s.ocl v).1,
  All-imp (InUse s.ocl) (InUse (initialize cl s.ocl).1) s.programs
      (λ p. initialized-InUse cl s.ocl p v) all,
)
Step-IsValid {s} (Step.shuts_down e) (v, all) = ((Context.step-Turns shuts_down s.ocl v).1, rw e tt)
Step-IsValid {s} constructs_program (v, all) =
    (v, (inr (opencl_program_lem s.ocl.context s.ocl.device).1, all))
Step-IsValid {s} (works_on_program op before after p e) (v, all) =
    let (here, left, right) = chosen-InUse s.ocl s.programs before after p e all in
    (
      v,
      All-append (InUse s.ocl) before ((step op p).0 ∷ after) left
          (rw (step_keeps op p) (here, right)),
    )
Step-IsValid {s} (destroys_program before after p e) (v, all) =
    let (here, left, right) = chosen-InUse s.ocl s.programs before after p e all in
    (v, All-append (InUse s.ocl) before after left right)
Step-IsValid (constructs_buffer created size) valid = valid
Step-IsValid (maps enqueue flag before after b e) valid = valid
Step-IsValid (unmaps mapped before after b e) valid = valid
Step-IsValid (destroys_buffer before after b e) valid = valid

-- The client's lists, as the parts around one that is chosen.
programs-Turns :
    (s : Client) (calls : List Call) (ps qs : List OpenClProgram)
    → s.programs ≡ ps
    → Turns calls (held_by s.ocl ps s.buffers) (held_by s.ocl qs s.buffers)
    → Turns calls (held s) (held_by s.ocl qs s.buffers)
programs-Turns s calls ps qs e =
    subst (λ rs. Turns calls (held_by s.ocl rs s.buffers) (held_by s.ocl qs s.buffers)) (sym e)

buffers-Turns :
    (s : Client) (calls : List Call) (bs cs : List OpenClBuffer)
    → s.buffers ≡ bs
    → Turns calls (held_by s.ocl s.programs bs) (held_by s.ocl s.programs cs)
    → Turns calls (held s) (held_by s.ocl s.programs cs)
buffers-Turns s calls bs cs e =
    subst (λ rs. Turns calls (held_by s.ocl s.programs rs) (held_by s.ocl s.programs cs)) (sym e)

-- A buffer that is used.
uses-Turns :
    (s : Client) (calls : List Call) (before after : List OpenClBuffer) (b : OpenClBuffer)
    → s.buffers ≡ before ++ b ∷ after
    → let r = beside_buffer s.ocl s.programs (before ++ after) in
      Turns calls (both r (BufferOwnership.held b)) (both r (BufferOwnership.held b))
      → Turns calls (held s) (held s)
uses-Turns s calls before after b e turns =
    subst (λ bs. Turns calls (held s) (held_by s.ocl s.programs bs)) (sym e)
      (buffers-Turns s calls (before ++ b ∷ after) (before ++ b ∷ after) e
        (on_buffer calls s.ocl s.programs before after b turns))

Step-Turns :
    {s t : Client} {calls : List Call} → Step s calls t → IsValid s → Turns calls (held s) (held t)
unfolding Context.step
Step-Turns {s} (Step.initializes cl) (v, all) =
    on_context _ s.ocl (initialize cl s.ocl).1 s.programs s.buffers
      (Context.step-Turns (initializes cl) s.ocl v).0
Step-Turns {s} (Step.shuts_down e) (v, all) =
    on_context _ s.ocl (shutdown s.ocl).0 s.programs s.buffers
      (Context.step-Turns shuts_down s.ocl v).0
Step-Turns {s} constructs_program (v, all) =
    let p = opencl_program s.ocl.context s.ocl.device in
    let r = beside_program s.ocl s.programs s.buffers in
    subst (λ r. Turns [] (held s) r)
      (held_by-no_program s.ocl s.programs s.buffers
        ∙ ap (both r) (sym (opencl_program_lem s.ocl.context s.ocl.device).0)
        ∙ sym (held_by-program s.ocl [] s.programs s.buffers p))
      (Turns-nil (held s))
Step-Turns {s} (works_on_program op before after p e) (v, all) =
    programs-Turns s (step op p).1 (before ++ p ∷ after) _ e (
      works-Turns op s.ocl before after s.buffers p
        (chosen-InUse s.ocl s.programs before after p e all).0)
Step-Turns {s} (destroys_program before after p e) (v, all) =
    programs-Turns s (Program.destroy p).1 (before ++ p ∷ after) _ e
      (destroys_program-Turns s.ocl before after s.buffers p)
Step-Turns {s} (constructs_buffer created size) valid =
    constructs_buffer-Turns created size s.ocl s.programs s.buffers
Step-Turns {s} (maps enqueue flag before after b e) valid =
    uses-Turns s _ before after b e
      (map_internal-Turns enqueue s.ocl.queue flag b _ (queue-Holds s.ocl _))
Step-Turns {s} (unmaps mapped before after b e) valid =
    uses-Turns s _ before after b e (unmap-Turns s.ocl.queue mapped b _ (queue-Holds s.ocl _))
Step-Turns {s} (destroys_buffer before after b e) valid =
    buffers-Turns s (Buffer.destroy b).1 (before ++ b ∷ after) _ e
      (destroys_buffer-Turns s.ocl s.programs before after b)

Run-Turns :
    {t : Client} {calls : List Call}
    → Run new_client calls t
    → IsValid t × Turns calls (held new_client) (held t)
unfolding new_client
Run-Turns stays = ((Context.opencl_context-IsValid, tt), Turns-nil (held new_client))
Run-Turns (then_step {calls} {more} run step) =
    let (valid, turns) = Run-Turns run in
    (
      Step-IsValid step valid,
      Turns-append calls more (held new_client) _ _ turns (Step-Turns step valid),
    )

destroy_programs-Turns :
    (ocl : OpenClContext) (ps : List OpenClProgram) (bs : List OpenClBuffer)
    → Turns (destroy_programs ps) (held_by ocl ps bs) (held_by ocl [] bs)
unfolding destroy_programs
destroy_programs-Turns ocl [] bs = Turns-nil (held_by ocl [] bs)
destroy_programs-Turns ocl (p ∷ ps) bs =
    Turns-append (Program.destroy p).1 (destroy_programs ps) _ (held_by ocl ps bs) _
      (destroys_program-Turns ocl [] ps bs p) (destroy_programs-Turns ocl ps bs)

destroy_buffers-Turns :
    (ocl : OpenClContext) (ps : List OpenClProgram) (bs : List OpenClBuffer)
    → Turns (destroy_buffers bs) (held_by ocl ps bs) (held_by ocl ps [])
unfolding destroy_buffers
destroy_buffers-Turns ocl ps [] = Turns-nil (held_by ocl ps [])
destroy_buffers-Turns ocl ps (b ∷ bs) =
    Turns-append (Buffer.destroy b).1 (destroy_buffers bs) _ (held_by ocl ps bs) _
      (destroys_buffer-Turns ocl ps [] bs b) (destroy_buffers-Turns ocl ps bs)

held-new_client : held new_client ≡ no_objects
unfolding new_client of_parts
held-new_client = fun_ext (λ x. rw Context.held-opencl_context refl)

of_parts-nil : (ocl : OpenClContext) → held_by ocl [] [] ≡ Context.held ocl
unfolding of_parts
of_parts-nil ocl = fun_ext (λ x. omega arith)

pub tear_down-Turns : (s : Client) → Turns (tear_down s) (held s) no_objects
unfolding tear_down
tear_down-Turns s =
    Turns-append (destroy_buffers s.buffers) _ (held s) _ no_objects
      (destroy_buffers-Turns s.ocl s.programs s.buffers)
      (Turns-append (destroy_programs s.programs) (shutdown s.ocl).1 _ (held_by s.ocl [] []) _
        (destroy_programs-Turns s.ocl s.programs [])
        (rw (of_parts-nil s.ocl) (Context.destroy-Turns s.ocl)))

-- A client that owns an `OpenCLContext`, and any number of programs and buffers that are constructed
-- with its context, initializes it, builds, creates kernels, maps, unmaps, constructs and destroys
-- in any order, whatever OpenCL answers, shuts the context down only while it has no programs, and
-- leaves every release to the objects. Then each call uses and releases only what is held then, all
-- that is held at any time is what the fields of its objects name, and the destructors at the end
-- of the client's scope release all of it, each reference once.
pub Run-tear_down :
    (t : Client) (calls : List Call)
    → Run new_client calls t
    → (performs (calls ++ tear_down t) no_objects ≡ true)
      × (perform_all calls no_objects ≡ held t)
      × (perform_all (calls ++ tear_down t) no_objects ≡ no_objects)
Run-tear_down t calls run =
    let ran = subst (λ r. Turns calls r (held t)) held-new_client (Run-Turns run).1 in
    let (performed, end) =
      Turns-append calls (tear_down t) no_objects (held t) no_objects ran (tear_down-Turns t) in
    (performed, ran.1, end)
