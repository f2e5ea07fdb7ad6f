-- ===== src/Compute/Client/Parts.antt =====
-- The references that the parts of a client hold, and what one part does among the others.
use mathlib.Core.Path.{fun_ext}
use smooth_demon.Prelude.{◌+◌, ◌≡◌, refl, List, [], ◌∷◌, ◌++◌, none, arith}
use smooth_demon.Compute.Objects.{Object, Call, Runtime, Turns}
use smooth_demon.Compute.Objects.Sharing.{both}
use smooth_demon.Compute.Context.{OpenClContext}
use smooth_demon.Compute.Program.{OpenClProgram}
use smooth_demon.Compute.Buffer.{OpenClBuffer}
use smooth_demon.Compute.Context.Ownership as Context
use smooth_demon.Compute.Program.Ownership as Program
use smooth_demon.Compute.Buffer.Ownership as Buffer
use smooth_demon.Compute.Client.{Client}

unfoldable pub of_parts {ℓ} : {A : Type ℓ} → (A → Runtime) → List A → Runtime
of_parts f [] x = 0
of_parts f (a ∷ rest) x = f a x + of_parts f rest x

abbrev pub held_by : OpenClContext → List OpenClProgram → List OpenClBuffer → Runtime
held_by ocl ps bs x = Context.held ocl x + (of_parts Program.held ps x + of_parts Buffer.held bs x)

-- Every reference that the client holds.
abbrev pub held : Client → Runtime
held s = held_by s.ocl s.programs s.buffers

of_parts-split {ℓ} :
    {A : Type ℓ} (f : A → Runtime) (before after : List A) (a : A) (x : Object)
    → of_parts f (before ++ a ∷ after) x ≡ f a x + of_parts f (before ++ after) x
unfolding of_parts
of_parts-split f [] after a x = refl
of_parts-split f (b ∷ before) after a x = omega (arith, of_parts-split f before after a x)

-- What is held beside the context, one of the programs, or one of the buffers.
abbrev pub beside_context : List OpenClProgram → List OpenClBuffer → Runtime
beside_context ps bs = both (of_parts Program.held ps) (of_parts Buffer.held bs)

abbrev pub beside_program : OpenClContext → List OpenClProgram → List OpenClBuffer → Runtime
beside_program ocl ps bs =
    both (Context.held ocl) (both (of_parts Buffer.held bs) (of_parts Program.held ps))

abbrev pub beside_buffer : OpenClContext → List OpenClProgram → List OpenClBuffer → Runtime
beside_buffer ocl ps bs =
    both (Context.held ocl) (both (of_parts Program.held ps) (of_parts Buffer.held bs))

pub held_by-context :
    (ocl : OpenClContext) (ps : List OpenClProgram) (bs : List OpenClBuffer)
    → held_by ocl ps bs ≡ both (beside_context ps bs) (Context.held ocl)
held_by-context ocl ps bs = fun_ext (λ x. omega arith)

pub held_by-program :
    (ocl : OpenClContext) (before after : List OpenClProgram) (bs : List OpenClBuffer)
    (p : OpenClProgram)
    → held_by ocl (before ++ p ∷ after) bs
      ≡ both (beside_program ocl (before ++ after) bs) (Program.held p)
held_by-program ocl before after bs p =
    fun_ext (λ x. omega (arith, of_parts-split Program.held before after p x))

pub held_by-buffer :
    (ocl : OpenClContext) (ps : List OpenClProgram) (before after : List OpenClBuffer)
    (b : OpenClBuffer)
    → held_by ocl ps (before ++ b ∷ after)
      ≡ both (beside_buffer ocl ps (before ++ after)) (Buffer.held b)
held_by-buffer ocl ps before after b =
    fun_ext (λ x. omega (arith, of_parts-split Buffer.held before after b x))

pub held_by-no_program :
    (ocl : OpenClContext) (ps : List OpenClProgram) (bs : List OpenClBuffer)
    → held_by ocl ps bs ≡ both (beside_program ocl ps bs) (Program.held_by none [])
unfolding Program.held_by Program.count_kernels
held_by-no_program ocl ps bs = fun_ext (λ x. omega arith)

pub held_by-no_buffer :
    (ocl : OpenClContext) (ps : List OpenClProgram) (bs : List OpenClBuffer)
    → held_by ocl ps bs ≡ both (beside_buffer ocl ps bs) (Buffer.held_by none)
unfolding Buffer.held_by
held_by-no_buffer ocl ps bs = fun_ext (λ x. omega arith)

pub Turns-at :
    (calls : List Call) (r r' s s' : Runtime)
    → r' ≡ r
    → s' ≡ s
    → Turns calls r s
    → Turns calls r' s'
Turns-at calls r r' s s' e f turns = rw (e, f) turns
