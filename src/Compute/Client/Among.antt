-- ===== src/Compute/Client/Among.antt =====
-- What each operation of a client does to the references that all its parts hold.
use mathlib.Core.Path.{subst}
use smooth_demon.Prelude.{ℕ, ◌≡◌, refl, sym, List, [], ◌∷◌, ◌++◌, Option, none, ◌⊎◌, inl, inr}
use smooth_demon.Compute.Objects.{Object, Call, Runtime, performs, Turns}
use smooth_demon.Compute.Objects.Sharing.{both, Turns-both, Holds, Holds-both}
use smooth_demon.Compute.Context.{OpenClContext}
use smooth_demon.Compute.Context.Ownership as Context
use smooth_demon.Compute.Program.{OpenClProgram, opencl_program}
use smooth_demon.Compute.Program as Program
use smooth_demon.Compute.Program.Ownership.{Op, step, step-Turns, destroy-Turns}
use smooth_demon.Compute.Buffer.{OpenClBuffer, opencl_buffer, map_internal, unmap}
use smooth_demon.Compute.Buffer as Buffer
use smooth_demon.Compute.Buffer.Ownership.{opencl_buffer-Turns, map_internal-Turns, unmap-Turns}
use smooth_demon.Compute.Buffer.Ownership as BufferOwnership
use smooth_demon.Compute.Client.Parts.{
  held_by, beside_context, beside_program, beside_buffer, held_by-context, held_by-program,
  held_by-buffer, held_by-no_program, held_by-no_buffer, Turns-at,
}

-- The context that a program keeps is null or the client's.
abbrev pub InUse : OpenClContext → OpenClProgram → Type 0
InUse ocl p = (p.context ≡ none) ⊎ (p.context ≡ ocl.context)

handle-Holds :
    (o : Option ℕ) (ocl : OpenClContext) (r : Runtime)
    → (o ≡ none) ⊎ (o ≡ ocl.context)
    → Holds Object.context o (both (Context.held ocl) r)
unfolding performs
handle-Holds o ocl r (inl e) =
    subst (λ h. Holds Object.context h (both (Context.held ocl) r)) (sym e) refl
handle-Holds o ocl r (inr e) =
    subst (λ h. Holds Object.context h (both (Context.held ocl) r)) (sym e)
      (Holds-both Object.context ocl.context (Context.held ocl) r (Context.held-Holds ocl).0)

pub queue-Holds :
    (ocl : OpenClContext) (r : Runtime) → Holds Object.queue ocl.queue (both (Context.held ocl) r)
queue-Holds ocl r =
    Holds-both Object.queue ocl.queue (Context.held ocl) r (Context.held-Holds ocl).1

-- The calls of one part, among what the others hold.
pub on_context :
    (calls : List Call) (ocl ocl' : OpenClContext) (ps : List OpenClProgram)
    (bs : List OpenClBuffer)
    → Turns calls (Context.held ocl) (Context.held ocl')
    → Turns calls (held_by ocl ps bs) (held_by ocl' ps bs)
on_context calls ocl ocl' ps bs turns =
    Turns-at calls (both (beside_context ps bs) (Context.held ocl)) _
      (both (beside_context ps bs) (Context.held ocl')) _ (held_by-context ocl ps bs)
      (held_by-context ocl' ps bs) (Turns-both calls (beside_context ps bs) _ _ turns)

pub works-Turns :
    (op : Op) (ocl : OpenClContext) (before after : List OpenClProgram) (bs : List OpenClBuffer)
    (p : OpenClProgram)
    → InUse ocl p
    → Turns
        (step op p).1
        (held_by ocl (before ++ p ∷ after) bs)
        (held_by ocl (before ++ (step op p).0 ∷ after) bs)
works-Turns op ocl before after bs p in_use =
    Turns-at (step op p).1 _ _ _ _ (held_by-program ocl before after bs p)
      (held_by-program ocl before after bs (step op p).0)
      (step-Turns op p (beside_program ocl (before ++ after) bs)
        (handle-Holds p.context ocl _ in_use))

pub destroys_program-Turns :
    (ocl : OpenClContext) (before after : List OpenClProgram) (bs : List OpenClBuffer)
    (p : OpenClProgram)
    → Turns
        (Program.destroy p).1
        (held_by ocl (before ++ p ∷ after) bs)
        (held_by ocl (before ++ after) bs)
destroys_program-Turns ocl before after bs p =
    Turns-at (Program.destroy p).1 _ _ _ _ (held_by-program ocl before after bs p)
      (held_by-no_program ocl (before ++ after) bs)
      (Turns-both (Program.destroy p).1 (beside_program ocl (before ++ after) bs) _ _
        (destroy-Turns p))

pub on_buffer :
    (calls : List Call) (ocl : OpenClContext) (ps : List OpenClProgram)
    (before after : List OpenClBuffer) (b : OpenClBuffer)
    → let r = beside_buffer ocl ps (before ++ after) in
      Turns calls (both r (BufferOwnership.held b)) (both r (BufferOwnership.held b))
      → Turns calls (held_by ocl ps (before ++ b ∷ after)) (held_by ocl ps (before ++ b ∷ after))
on_buffer calls ocl ps before after b turns =
    Turns-at calls _ _ _ _ (held_by-buffer ocl ps before after b)
      (held_by-buffer ocl ps before after b) turns

pub constructs_buffer-Turns :
    (created : Option ℕ) (size : ℕ) (ocl : OpenClContext) (ps : List OpenClProgram)
    (bs : List OpenClBuffer)
    → let (b, calls) = opencl_buffer ocl.context created size in
      Turns calls (held_by ocl ps bs) (held_by ocl ps (b ∷ bs))
constructs_buffer-Turns created size ocl ps bs =
    let (b, calls) = opencl_buffer ocl.context created size in
    Turns-at calls _ _ _ _ (held_by-no_buffer ocl ps bs) (held_by-buffer ocl ps [] bs b) (
      opencl_buffer-Turns ocl.context created size (beside_buffer ocl ps bs)
        (handle-Holds ocl.context ocl _ (inr refl)))

pub destroys_buffer-Turns :
    (ocl : OpenClContext) (ps : List OpenClProgram) (before after : List OpenClBuffer)
    (b : OpenClBuffer)
    → Turns
        (Buffer.destroy b).1
        (held_by ocl ps (before ++ b ∷ after))
        (held_by ocl ps (before ++ after))
destroys_buffer-Turns ocl ps before after b =
    Turns-at (Buffer.destroy b).1 _ _ _ _ (held_by-buffer ocl ps before after b)
      (held_by-no_buffer ocl ps (before ++ after))
      (Turns-both (Buffer.destroy b).1 (beside_buffer ocl ps (before ++ after)) _ _
        (BufferOwnership.destroy-Turns b))
