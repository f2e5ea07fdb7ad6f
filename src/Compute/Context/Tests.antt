-- ===== src/Compute/Context/Tests.antt =====
-- The context at concrete inputs.
use smooth_demon.Prelude.{ℕ, ◌≡◌, refl, true, List, [], ◌∷◌, ◌++◌, Option, none, some}
use smooth_demon.Text.{codes, contains}
use smooth_demon.Compute.Objects.{no_objects, performs, perform_all}
use smooth_demon.Compute.Context.{
  ClDevice, ClPlatform, Cl, opencl_context, find_intel_gpu_device, shutdown, is_intel, query_string,
  to_lower,
}
use smooth_demon.Compute.Context.Ownership.{Op, initializes, shuts_down, run, held, run-balanced}
use smooth_demon.Compute.Context.Choice.{
  preferred, first_with, has_gpu, names_intel, find_intel_gpu_device-preferred,
}

abbrev gpu : ℕ → ClDevice
gpu id = record {
  device_id = id;
  name_info = some (codes "HD Graphics 610");
  compute_units_info = some 12;
  work_group_size_info = some 256;
  mem_size_info = none;
}

abbrev mesa : ClPlatform
mesa = record {
  platform_id = 1;
  name_info = some (codes "Clover");
  vendor_info = some (codes "Mesa");
  gpus = gpu 7 ∷ [];
}

abbrev intel : ClPlatform
intel = record {
  platform_id = 2;
  name_info = some (codes "Intel(R) OpenCL Graphics");
  vendor_info = none;
  gpus = gpu 8 ∷ gpu 9 ∷ [];
}

-- A platform of Intel's without a GPU.
abbrev processor : ClPlatform
processor = record intel { platform_id = 3; gpus = [] }

chooses_intel :
    (find_intel_gpu_device (processor ∷ mesa ∷ intel ∷ []) opencl_context).0 ≡ some (gpu 8)
unfolding find_intel_gpu_device is_intel contains opencl_context
chooses_intel = refl

chooses_any : (find_intel_gpu_device (processor ∷ mesa ∷ []) opencl_context).0 ≡ some (gpu 7)
unfolding find_intel_gpu_device is_intel contains opencl_context
chooses_any = refl

chooses_none : (find_intel_gpu_device (processor ∷ []) opencl_context).0 ≡ none
unfolding find_intel_gpu_device is_intel contains opencl_context
chooses_none = refl

find_intel_gpu_device-preferred_example :
    find_intel_gpu_device (processor ∷ mesa ∷ intel ∷ []) opencl_context ≡ (
      some (gpu 8),
      record opencl_context {
        platform = some 2;
        device = some 8;
        platform_name = codes "Intel(R) OpenCL Graphics";
      },
    )
unfolding preferred first_with has_gpu names_intel contains query_string to_lower
find_intel_gpu_device-preferred_example =
    find_intel_gpu_device-preferred (processor ∷ mesa ∷ intel ∷ []) opencl_context

abbrev cl : Option ℕ → Cl
cl queue = record { platforms = mesa ∷ intel ∷ []; context_result = some 20; queue_result = queue }

-- The queue cannot be created, then it can, then the context is shut down and used again.
abbrev ops : List Op
ops =
    initializes (cl none)
    ∷ initializes (cl (some 30))
    ∷ initializes (cl (some 31))
    ∷ shuts_down
    ∷ initializes (cl (some 32))
    ∷ []

run-balanced_example :
    (performs ((run ops opencl_context).1 ++ (shutdown (run ops opencl_context).0).1) no_objects
      ≡ true)
    × (perform_all (run ops opencl_context).1 no_objects ≡ held (run ops opencl_context).0)
    × (perform_all
          ((run ops opencl_context).1 ++ (shutdown (run ops opencl_context).0).1)
          no_objects
        ≡ no_objects)
run-balanced_example = run-balanced ops
