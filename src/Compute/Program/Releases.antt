-- ===== src/Compute/Program/Releases.antt =====
-- What the destructor of a program releases.
use mathlib.Core.Path.{subst}
use smooth_demon.Prelude.{
  ℕ, ◌≡◌, sym, List, [], ◌∷◌, ◌++◌, Option, none, some, arith, All, All-append, ◌<◌,
}
use smooth_demon.Compute.Objects.{Object}
use smooth_demon.Compute.Objects.Accounts.{Frees}
use smooth_demon.Compute.Program.{
  OpenClProgram, program_calls, release_program, kernel_calls, destroy,
}
use smooth_demon.Compute.Program.Ownership.{count_kernels, held_by, held, count_kernels-append}

kernel_calls-Frees : (ks : List ℕ) → All Frees (kernel_calls ks)
unfolding kernel_calls
kernel_calls-Frees [] = tt
kernel_calls-Frees (k ∷ ks) = (tt, kernel_calls-Frees ks)

program_calls-Frees : (h : Option ℕ) → All Frees (program_calls h)
unfolding program_calls
program_calls-Frees none = tt
program_calls-Frees (some h) = (tt, tt)

pub destroy-Frees : (p : OpenClProgram) → All Frees (destroy p).1
unfolding destroy release_program
destroy-Frees p =
    All-append Frees (kernel_calls p.kernels) (program_calls p.program)
      (kernel_calls-Frees p.kernels) (program_calls-Frees p.program)

kernel_counted :
    (before after : List ℕ) (k : ℕ) (h : Option ℕ)
    → 0 < held_by h (before ++ k ∷ after) (Object.kernel k)
unfolding held_by count_kernels
kernel_counted before after k none =
    ground (arith, count_kernels-append before (k ∷ after) (Object.kernel k))
kernel_counted before after k (some p) =
    ground (arith, count_kernels-append before (k ∷ after) (Object.kernel k))

pub held-kernel :
    (p : OpenClProgram) (before after : List ℕ) (k : ℕ)
    → p.kernels ≡ before ++ k ∷ after
    → 0 < held p (Object.kernel k)
held-kernel p before after k e =
    subst (λ ks. 0 < held_by p.program ks (Object.kernel k)) (sym e)
      (kernel_counted before after k p.program)
