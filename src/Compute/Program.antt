-- ===== src/Compute/Program.antt =====
-- `OpenCLProgram` of src/compute/OpenCLProgram.cpp and include/compute/OpenCLProgram.h. What the
-- OpenCL calls return is an argument; a handle is a number, and a null handle `none`.
pub mod Ownership
pub mod Kept
pub mod Releases
mod Tests
use smooth_demon.Prelude.{
  ℕ, Bool, true, false, List, [], ◌∷◌, ◌++◌, Option, none, some, if◌then◌else◌, min,
}
use smooth_demon.Text.{Text, File}
use smooth_demon.Compute.Objects.{Object, Call, create, use_of, release, use_if}

pub record OpenClProgram : Type 0 where
  pub context : Option ℕ
  pub device : Option ℕ
  pub program : Option ℕ
  pub kernels : List ℕ

-- The constructor.
unfoldable pub opencl_program : Option ℕ → Option ℕ → OpenClProgram
opencl_program context device = record {
  context = context;
  device = device;
  program = none;
  kernels = [];
}

-- What the OpenCL calls of a build give: the program that is created in a context from a source, and
-- whether it builds for a device with some options.
pub record Compiler : Type 0 where
  pub create_program : Option ℕ → Text → Option ℕ
  pub builds : ℕ → Option ℕ → Text → Bool

program_calls : Option ℕ → List Call
program_calls none = []
program_calls (some p) = release (Object.program p) ∷ []

pub release_program : OpenClProgram → OpenClProgram × List Call
unfolding program_calls
release_program p = (record p { program = none }, program_calls p.program)

-- The rest of `BuildFromSource`, from what the create call gives.
pub build_created : Option ℕ → (ℕ → Bool) → OpenClProgram → Bool × OpenClProgram × List Call
build_created none builds p = (false, record p { program = none }, [])
build_created (some h) builds p =
    if builds h
    then (
      true,
      record p { program = some h },
      create (Object.program h) ∷ use_of (Object.program h) ∷ [],
    )
    else (
      false,
      record p { program = none },
      create (Object.program h)
          ∷ use_of (Object.program h)
          ∷ use_of (Object.program h)
          ∷ release (Object.program h)
          ∷ [],
    )

unfoldable pub build_from_source :
    Compiler → Text → Text → OpenClProgram → Bool × OpenClProgram × List Call
unfolding release_program build_created
build_from_source cl source options p =
    let (released, before) = release_program p in
    let (done, p', calls) =
      build_created (cl.create_program p.context source) (λ h. cl.builds h p.device options)
        released in
    (done, p', before ++ (use_if Object.context p.context ++ calls))

pub build_from_file : Compiler → File → Text → OpenClProgram → Bool × OpenClProgram × List Call
unfolding build_from_source
build_from_file cl none options p = (false, p, [])
build_from_file cl (some source) options p = build_from_source cl source options p

-- With a program, from what the create call gives.
pub create_kernel_in : ℕ → Option ℕ → OpenClProgram → Option ℕ × OpenClProgram × List Call
create_kernel_in h none p = (none, p, use_of (Object.program h) ∷ [])
create_kernel_in h (some k) p = (
  some k,
  record p { kernels = p.kernels ++ (k ∷ []) },
  use_of (Object.program h) ∷ create (Object.kernel k) ∷ [],
)

-- From the program, and what the create call gives for a program and a name.
pub create_kernel_of :
    Option ℕ → (ℕ → Option ℕ) → OpenClProgram → Option ℕ × OpenClProgram × List Call
unfolding create_kernel_in
create_kernel_of none create_in p = (none, p, [])
create_kernel_of (some h) create_in p = create_kernel_in h (create_in h) p

unfoldable pub create_kernel :
    (ℕ → Text → Option ℕ) → Text → OpenClProgram → Option ℕ × OpenClProgram × List Call
unfolding create_kernel_of
create_kernel create_in name p = create_kernel_of p.program (λ h. create_in h name) p

pub kernel_calls : List ℕ → List Call
kernel_calls [] = []
kernel_calls (k ∷ ks) = release (Object.kernel k) ∷ kernel_calls ks

-- The destructor.
pub destroy : OpenClProgram → OpenClProgram × List Call
unfolding kernel_calls release_program
destroy p =
    let (p', calls) = release_program (record p { kernels = [] }) in
    (p', kernel_calls p.kernels ++ calls)

-- `query` is what the device gives as the largest size, none where the query fails.
pub clamp_local_work_size : Option ℕ → ℕ → ℕ
clamp_local_work_size none desired = desired
clamp_local_work_size (some largest) desired = min desired largest
