-- ===== src/Compute/Program/Kept.antt =====
-- A program keeps the context that it is constructed with.
use smooth_demon.Prelude.{ℕ, ◌≡◌, refl, Bool, Option, none, some, arith, Option-cases, inl, inr}
use smooth_demon.Compute.Program.{
  OpenClProgram, release_program, build_created, build_from_source, build_from_file,
  create_kernel_in, create_kernel_of, create_kernel,
}
use smooth_demon.Compute.Program.Ownership.{Op, builds_source, builds_file, creates_kernel, step}

build_created_keeps :
    (h : Option ℕ) (builds : ℕ → Bool) (p : OpenClProgram)
    → (build_created h builds p).1.context ≡ p.context
unfolding build_created
build_created_keeps none builds p = refl
build_created_keeps (some h) builds p = ground arith

create_kernel_of_keeps :
    (h : Option ℕ) (create_in : ℕ → Option ℕ) (p : OpenClProgram)
    → (create_kernel_of h create_in p).1.context ≡ p.context
unfolding create_kernel_of create_kernel_in
create_kernel_of_keeps none create_in p = refl
create_kernel_of_keeps (some h) create_in p = elim (Option-cases (create_in h)) [
  | inl e ↦ rw e refl
  | inr (k, e) ↦ rw e refl
]

pub step_keeps : (op : Op) (p : OpenClProgram) → (step op p).0.context ≡ p.context
unfolding step build_from_file build_from_source release_program create_kernel
step_keeps (builds_source cl source options) p =
    build_created_keeps (cl.create_program p.context source) _ (record p { program = none })
step_keeps (builds_file cl none options) p = refl
step_keeps (builds_file cl (some source) options) p =
    build_created_keeps (cl.create_program p.context source) _ (record p { program = none })
step_keeps (creates_kernel create_in name) p = create_kernel_of_keeps p.program _ p
