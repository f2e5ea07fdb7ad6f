-- ===== src/Compute/Client/Tests.antt =====
-- A client that runs a kernel on a buffer, as tests/test_opencl.cpp does.
use smooth_demon.Prelude.{◌≡◌, ◌++◌, refl, true, false, List, [], ◌∷◌, some}
use smooth_demon.Text.{codes}
use smooth_demon.Compute.Objects.{Object, Call, release, no_objects, performs, perform_all}
use smooth_demon.Compute.Context.{Cl, initialize}
use smooth_demon.Compute.Program.{
  OpenClProgram, Compiler, opencl_program, build_from_source, create_kernel,
}
use smooth_demon.Compute.Program.Ownership.{Op, builds_source, creates_kernel, step}
use smooth_demon.Compute.Buffer.{EnqueueMap, opencl_buffer}
use smooth_demon.Compute.Buffer as Buffer
use smooth_demon.Compute.Client.{
  Client, new_client, initializes, constructs_program, works_on_program, constructs_buffer, maps,
  unmaps, Run, stays, then_step, tear_down,
}
use smooth_demon.Compute.Client.Parts.{held}
use smooth_demon.Compute.Client.Balance.{Run-tear_down}
use smooth_demon.Compute.Client.Twice.{Run-releases_twice}

abbrev cl : Cl
cl = record {
  platforms =
      record {
        platform_id = 1;
        name_info = some (codes "Intel(R) OpenCL HD Graphics");
        vendor_info = some (codes "Intel(R) Corporation");
        gpus =
            record {
              device_id = 2;
              name_info = some (codes "Intel(R) HD Graphics 610");
              compute_units_info = some 12;
              work_group_size_info = some 256;
              mem_size_info = some 3_000_000_000;
            }
            ∷ [];
      }
      ∷ [];
  context_result = some 3;
  queue_result = some 4;
}

abbrev compiler : Compiler
compiler = record { create_program = λ context source. some 5; builds = λ h device options. true }

abbrev build : Op
build = builds_source compiler (codes "__kernel") (codes "-cl-mad-enable")

abbrev make_kernel : Op
make_kernel = creates_kernel (λ h name. some 6) (codes "VectorAdd")

abbrev enqueue : EnqueueMap
enqueue queue m flag offset size = some 4096

abbrev initialized : Client
initialized = record new_client { ocl = (initialize cl new_client.ocl).1 }

abbrev fresh : OpenClProgram
fresh = opencl_program initialized.ocl.context initialized.ocl.device

abbrev built : OpenClProgram
built = (step build fresh).0

abbrev with_kernel : OpenClProgram
with_kernel = (step make_kernel built).0

abbrev buffer : Buffer.OpenClBuffer
buffer = (opencl_buffer initialized.ocl.context (some 7) 4_194_304).0

abbrev ready : Client
ready = record initialized { programs = with_kernel ∷ []; buffers = buffer ∷ [] }

abbrev calls : List Call
calls =
    (((((([] ++ (initialize cl new_client.ocl).2) ++ []) ++ (step build fresh).1)
          ++ (step make_kernel built).1)
        ++ (opencl_buffer initialized.ocl.context (some 7) 4_194_304).1)
      ++ (Buffer.map_internal enqueue initialized.ocl.queue Buffer.MapFlag.write buffer).1)
    ++ Buffer.unmap initialized.ocl.queue (some 4096) buffer

works : Run new_client calls ready
unfolding new_client
works =
    then_step
      (then_step
        (then_step
          (then_step
            (then_step (then_step (then_step stays (initializes cl)) constructs_program)
              (works_on_program build [] [] fresh refl))
            (works_on_program make_kernel [] [] built refl))
          (constructs_buffer (some 7) 4_194_304))
        (maps enqueue Buffer.MapFlag.write [] [] buffer refl))
      (unmaps (some 4096) [] [] buffer refl)

Run-tear_down_example :
    (performs (calls ++ tear_down ready) no_objects ≡ true)
    × (perform_all calls no_objects ≡ held ready)
    × (perform_all (calls ++ tear_down ready) no_objects ≡ no_objects)
Run-tear_down_example = Run-tear_down ready calls works

has_kernel : with_kernel.kernels ≡ [] ++ 6 ∷ []
unfolding step opencl_program build_from_source create_kernel
has_kernel = refl

Run-releases_twice_example :
    (performs (calls ++ release (Object.kernel 6) ∷ []) no_objects ≡ true)
    × (performs (calls ++ release (Object.kernel 6) ∷ tear_down ready) no_objects ≡ false)
Run-releases_twice_example =
    Run-releases_twice ready calls [] [] with_kernel [] [] 6 works refl has_kernel
