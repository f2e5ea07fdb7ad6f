-- ===== src/Compute/Program/Tests.antt =====
-- The program at concrete inputs.
use smooth_demon.Prelude.{◌≡◌, refl, true, false, [], ◌∷◌, none, some}
use smooth_demon.Text.{codes}
use smooth_demon.Compute.Program.{
  Compiler, opencl_program, clamp_local_work_size, create_kernel, build_from_source,
}

-- The empty source has the errors.
abbrev compiler : Compiler
compiler = record {
  create_program = λ context source. some 4;
  builds = λ h device options. elim options [ [] ↦ false | c ∷ s ↦ true ];
}

-- A kernel is kept although its program is released by the next build.
keeps_kernels :
    let p = opencl_program (some 1) (some 2) in
    let (built, q, calls) =
      build_from_source compiler (codes "kernel") (codes "-cl-mad-enable") p in
    let (k, r, more) = create_kernel (λ h name. some 10) (codes "blend") q in
    let (again, t, rest) = build_from_source compiler (codes "kernel") [] r in
    (t.program ≡ none) × (t.kernels ≡ 10 ∷ [])
unfolding create_kernel build_from_source opencl_program
keeps_kernels = (refl, refl)

clamps : clamp_local_work_size (some 256) 1024 ≡ 256
unfolding clamp_local_work_size
clamps = refl
