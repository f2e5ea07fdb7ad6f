-- ===== src/Compute/Program/Ownership.antt =====
-- The program and the kernels are released once, where the caller leaves every release to the
-- object.
use mathlib.Core.Path.{fun_ext, subst}
use smooth_demon.Prelude.{
  ℕ, ◌+◌, ◌≡◌, refl, sym, Bool, true, List, [], ◌∷◌, ◌++◌, Option, none, some, arith, Bool-cases,
  inl, inr,
}
use smooth_demon.Text.{Text, File}
use smooth_demon.Compute.Objects.{
  Object, Call, release, Runtime, one_if, same_object, allowed, perform, performs, perform_all,
  Turns, Turns-append, Turns-cons, Turns-nil, use_if,
}
use smooth_demon.Compute.Objects.Sharing.{both, Turns-both, Holds, use_if-Turns, Holds-both}
use smooth_demon.Compute.Program.{
  OpenClProgram, Compiler, opencl_program, program_calls, release_program, build_created,
  build_from_source, build_from_file, create_kernel_in, create_kernel_of, create_kernel,
  kernel_calls, destroy,
}

-- What a client may call.
pub data Op : Type 0 where
  builds_source : Compiler → Text → Text → Op
  builds_file : Compiler → File → Text → Op
  creates_kernel : (ℕ → Text → Option ℕ) → Text → Op

unfoldable pub step : Op → OpenClProgram → OpenClProgram × List Call
step (builds_source cl source options) p =
    let (done, p', calls) = build_from_source cl source options p in (p', calls)
step (builds_file cl file options) p =
    let (done, p', calls) = build_from_file cl file options p in (p', calls)
step (creates_kernel create_in name) p =
    let (k, p', calls) = create_kernel create_in name p in (p', calls)

unfoldable pub count_kernels : List ℕ → Runtime
count_kernels [] x = 0
count_kernels (k ∷ ks) x = one_if (same_object x (Object.kernel k)) + count_kernels ks x

-- The references that a program and some kernels are.
unfoldable pub held_by : Option ℕ → List ℕ → Runtime
held_by none ks x = count_kernels ks x
held_by (some h) ks x = one_if (same_object x (Object.program h)) + count_kernels ks x

abbrev pub held : OpenClProgram → Runtime
held p = held_by p.program p.kernels

pub count_kernels-append :
    (ks js : List ℕ) (x : Object)
    → count_kernels (ks ++ js) x ≡ count_kernels ks x + count_kernels js x
unfolding count_kernels
count_kernels-append [] js x = omega arith
count_kernels-append (k ∷ ks) js x = omega (arith, count_kernels-append ks js x)

pub opencl_program_lem :
    (context device : Option ℕ)
    → (held (opencl_program context device) ≡ held_by none [])
      × ((opencl_program context device).context ≡ context)
unfolding opencl_program
opencl_program_lem context device = (refl, refl)

release-Turns :
    (h : Option ℕ) (ks : List ℕ) → Turns (program_calls h) (held_by h ks) (held_by none ks)
unfolding program_calls held_by performs perform_all perform allowed
release-Turns none ks = (refl, refl)
release-Turns (some h) ks = (ground arith, fun_ext (λ x. omega arith))

build_created-Turns :
    (h : Option ℕ) (builds : ℕ → Bool) (p : OpenClProgram)
    → let (done, p', calls) = build_created h builds p in
      Turns calls (held_by none p.kernels) (held p')
unfolding build_created held_by performs perform_all perform allowed
build_created-Turns none builds p = (refl, refl)
build_created-Turns (some h) builds p = elim (Bool-cases (builds h)) [
  | inl good ↦ rw good (ground arith, fun_ext (λ x. omega arith))
  | inr bad ↦ rw bad (ground arith, fun_ext (λ x. omega arith))
]

create_kernel_in-Turns :
    (h : ℕ) (created : Option ℕ) (p : OpenClProgram)
    → let (k, p', calls) = create_kernel_in h created p in
      Turns calls (held_by (some h) p.kernels) (held_by (some h) p'.kernels)
      × (p'.program ≡ p.program)
unfolding create_kernel_in performs perform_all perform allowed held_by count_kernels
create_kernel_in-Turns h none p = ((ground arith, refl), refl)
create_kernel_in-Turns h (some k) p =
    ((ground arith, fun_ext (λ x. omega (arith, count_kernels-append p.kernels (k ∷ []) x))), refl)

count_first :
    (k : ℕ) (ks : List ℕ) (h : Option ℕ)
    → perform (release (Object.kernel k)) (held_by h (k ∷ ks)) ≡ held_by h ks
unfolding perform held_by count_kernels
count_first k ks none = fun_ext (λ x. omega arith)
count_first k ks (some p) = fun_ext (λ x. omega arith)

first_allowed :
    (k : ℕ) (ks : List ℕ) (h : Option ℕ)
    → allowed (release (Object.kernel k)) (held_by h (k ∷ ks)) ≡ true
unfolding allowed held_by count_kernels
first_allowed k ks none = ground arith
first_allowed k ks (some p) = ground arith

build_from_source-Turns :
    (cl : Compiler) (source options : Text) (p : OpenClProgram) (b : Runtime)
    → Holds Object.context p.context b
    → let (done, p', calls) = build_from_source cl source options p in
      Turns calls (both b (held p)) (both b (held p'))
unfolding build_from_source release_program
build_from_source-Turns cl source options p b holds =
    let (done, p', calls) =
      build_created (cl.create_program p.context source) (λ h. cl.builds h p.device options)
        (record p { program = none }) in
    let released = both b (held_by none p.kernels) in
    Turns-append (program_calls p.program) _ (both b (held p)) released _
      (Turns-both (program_calls p.program) b (held p) (held_by none p.kernels)
        (release-Turns p.program p.kernels))
      (Turns-append (use_if Object.context p.context) calls released released (both b (held p'))
        (use_if-Turns Object.context p.context released
          (Holds-both Object.context p.context b (held_by none p.kernels) holds))
        (Turns-both calls b (held_by none p.kernels) (held p') (
          build_created-Turns (cl.create_program p.context source)
            (λ h. cl.builds h p.device options) (record p { program = none }))))

create_kernel_of-Turns :
    (h : Option ℕ) (create_in : ℕ → Option ℕ) (p : OpenClProgram)
    → let (k, p', calls) = create_kernel_of h create_in p in
      Turns calls (held_by h p.kernels) (held_by h p'.kernels) × (p'.program ≡ p.program)
unfolding create_kernel_of
create_kernel_of-Turns none create_in p = (Turns-nil (held_by none p.kernels), refl)
create_kernel_of-Turns (some h) create_in p = create_kernel_in-Turns h (create_in h) p

create_kernel-Turns :
    (create_in : ℕ → Text → Option ℕ) (name : Text) (p : OpenClProgram)
    → let (k, p', calls) = create_kernel create_in name p in Turns calls (held p) (held p')
unfolding create_kernel
create_kernel-Turns create_in name p =
    let p' = (create_kernel create_in name p).1 in
    let (turns, same) = create_kernel_of-Turns p.program (λ h. create_in h name) p in
    subst (λ h. Turns (create_kernel create_in name p).2 (held p) (held_by h p'.kernels)) (sym same)
      turns

kernels-Turns : (ks : List ℕ) (h : Option ℕ) → Turns (kernel_calls ks) (held_by h ks) (held_by h [])
unfolding kernel_calls
kernels-Turns [] h = Turns-nil (held_by h [])
kernels-Turns (k ∷ ks) h =
    Turns-cons (release (Object.kernel k)) (kernel_calls ks) (held_by h (k ∷ ks)) (held_by h ks)
      (held_by h []) (first_allowed k ks h) (count_first k ks h) (kernels-Turns ks h)

pub step-Turns :
    (op : Op) (p : OpenClProgram) (b : Runtime)
    → Holds Object.context p.context b
    → Turns (step op p).1 (both b (held p)) (both b (held (step op p).0))
unfolding step build_from_file
step-Turns (builds_source cl source options) p b holds =
    build_from_source-Turns cl source options p b holds
step-Turns (builds_file cl none options) p b holds = Turns-nil (both b (held p))
step-Turns (builds_file cl (some source) options) p b holds =
    build_from_source-Turns cl source options p b holds
step-Turns (creates_kernel create_in name) p b holds =
    let (k, p', calls) = create_kernel create_in name p in
    Turns-both calls b (held p) (held p') (create_kernel-Turns create_in name p)

pub destroy-Turns : (p : OpenClProgram) → Turns (destroy p).1 (held p) (held_by none [])
unfolding destroy release_program
destroy-Turns p =
    Turns-append (kernel_calls p.kernels) (program_calls p.program) (held p) _ _
      (kernels-Turns p.kernels p.program) (release-Turns p.program [])
