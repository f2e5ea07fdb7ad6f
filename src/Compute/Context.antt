-- ===== src/Compute/Context.antt =====
-- `OpenCLContext` of src/compute/OpenCLContext.cpp and include/compute/OpenCLContext.h. What the
-- OpenCL calls return is an argument; a handle is a number, and a null handle `none`.
pub mod Choice
pub mod Ownership
mod Tests
use smooth_demon.Prelude.{
  ℕ, ◌+◌, Bool, true, false, ◌&&◌, ◌||◌, List, [], ◌∷◌, ◌++◌, map, Option, none, some, leb, ◌==◌,
  if◌then◌else◌,
}
use smooth_demon.Text.{Text, codes, contains}
use smooth_demon.Compute.Objects.{Object, Call, create, use_of, release}

-- A device, with what `clGetDeviceInfo` gives of it.
pub record ClDevice : Type 0 where
  pub device_id : ℕ
  pub name_info : Option Text
  pub compute_units_info : Option ℕ
  pub work_group_size_info : Option ℕ
  pub mem_size_info : Option ℕ

-- A platform, with what `clGetPlatformInfo` gives of it, and its GPU devices.
pub record ClPlatform : Type 0 where
  pub platform_id : ℕ
  pub name_info : Option Text
  pub vendor_info : Option Text
  pub gpus : List ClDevice

pub record OpenClContext : Type 0 where
  pub initialized : Bool
  pub platform : Option ℕ
  pub device : Option ℕ
  pub context : Option ℕ
  pub queue : Option ℕ
  pub platform_name : Text
  pub device_name : Text
  pub compute_units : ℕ
  pub max_work_group_size : ℕ
  pub global_mem_size : ℕ

-- The results of the OpenCL calls in `Initialize`.
pub record Cl : Type 0 where
  pub platforms : List ClPlatform
  pub context_result : Option ℕ
  pub queue_result : Option ℕ

pub opencl_context : OpenClContext
opencl_context = record {
  initialized = false;
  platform = none;
  device = none;
  context = none;
  queue = none;
  platform_name = [];
  device_name = [];
  compute_units = 0;
  max_work_group_size = 0;
  global_mem_size = 0;
}

lower : ℕ → ℕ
lower c = if leb b'A' c && leb c b'Z' then c + 32 else c

pub to_lower : Text → Text
unfolding lower
to_lower s = map lower s

without_nul : Text → Text
without_nul [] = []
without_nul (c ∷ []) = if c == 0 then [] else c ∷ []
without_nul (c ∷ d ∷ s) = c ∷ without_nul (d ∷ s)

-- `QueryPlatformString` and `QueryDeviceString`: none where the size cannot be had or is 0.
pub query_string : Option Text → Text
unfolding without_nul
query_string none = []
query_string (some value) = without_nul value

pub is_intel : ClPlatform → Bool
unfolding to_lower query_string
is_intel p =
    contains (codes "intel") (to_lower (query_string p.name_info))
    || contains (codes "intel") (to_lower (query_string p.vendor_info))

-- `devices[0]`
pub first_gpu : ClPlatform → Option (ClPlatform × ClDevice)
first_gpu p = elim p.gpus [ [] ↦ none | device ∷ devices ↦ some (p, device) ]

abbrev pub or_else : {A : Type 0} → Option A → Option A → Option A
or_else (some a) o = some a
or_else none o = o

-- The loop over the platforms, with the fallback found so far.
pub search_platforms :
    List ClPlatform → Option (ClPlatform × ClDevice) → Option (ClPlatform × ClDevice)
unfolding first_gpu is_intel
search_platforms [] fallback = fallback
search_platforms (p ∷ ps) fallback =
    let rest = search_platforms ps (or_else fallback (first_gpu p)) in
    if is_intel p then or_else (first_gpu p) rest else rest

-- The device, and the context that records the choice.
pub record_choice : Option (ClPlatform × ClDevice) → OpenClContext → Option ClDevice × OpenClContext
unfolding query_string
record_choice none ocl = (none, ocl)
record_choice (some (p, device)) ocl = (
  some device,
  record ocl {
    platform = some p.platform_id;
    device = some device.device_id;
    platform_name = query_string p.name_info;
  },
)

pub find_intel_gpu_device : List ClPlatform → OpenClContext → Option ClDevice × OpenClContext
unfolding search_platforms record_choice
find_intel_gpu_device platforms ocl = record_choice (search_platforms platforms none) ocl

-- A query that fails leaves the old value.
info_or : ℕ → Option ℕ → ℕ
info_or old none = old
info_or old (some v) = v

pub query_device_info : ClDevice → OpenClContext → OpenClContext
unfolding query_string info_or
query_device_info device ocl = record ocl {
  device_name = query_string device.name_info;
  compute_units = info_or ocl.compute_units device.compute_units_info;
  max_work_group_size = info_or ocl.max_work_group_size device.work_group_size_info;
  global_mem_size = info_or ocl.global_mem_size device.mem_size_info;
}

-- The rest of `Initialize`, behind the queries, from the results of the two calls that create: the
-- result, the context, and the calls.
pub create_objects : Option ℕ → Option ℕ → OpenClContext → Bool × OpenClContext × List Call
create_objects none queue_result ocl = (false, record ocl { context = none }, [])
create_objects (some c) none ocl = (
  false,
  record ocl { context = none; queue = none },
  create (Object.context c) ∷ use_of (Object.context c) ∷ release (Object.context c) ∷ [],
)
create_objects (some c) (some q) ocl = (
  true,
  record ocl { context = some c; queue = some q; initialized = true },
  create (Object.context c) ∷ use_of (Object.context c) ∷ create (Object.queue q) ∷ [],
)

-- `Initialize` from the flag, the device that is found, and the context with the choice.
pub initialize_from :
    Bool → Option ClDevice → Cl → OpenClContext → OpenClContext → Bool × OpenClContext × List Call
unfolding query_device_info create_objects
initialize_from true found cl ocl chosen = (true, ocl, [])
initialize_from false none cl ocl chosen = (false, chosen, [])
initialize_from false (some device) cl ocl chosen =
    create_objects cl.context_result cl.queue_result (query_device_info device chosen)

pub initialize : Cl → OpenClContext → Bool × OpenClContext × List Call
unfolding find_intel_gpu_device initialize_from
initialize cl ocl =
    let (found, chosen) = find_intel_gpu_device cl.platforms ocl in
    initialize_from ocl.initialized found cl ocl chosen

queue_calls : Option ℕ → List Call
queue_calls none = []
queue_calls (some q) = use_of (Object.queue q) ∷ release (Object.queue q) ∷ []

context_calls : Option ℕ → List Call
context_calls none = []
context_calls (some c) = release (Object.context c) ∷ []

-- The destructor does the same.
pub shutdown : OpenClContext → OpenClContext × List Call
unfolding queue_calls context_calls
shutdown ocl = (
  record ocl { queue = none; context = none; platform = none; device = none; initialized = false },
  queue_calls ocl.queue ++ context_calls ocl.context,
)
