-- ===== src/Compute/Buffer.antt =====
-- `OpenCLBuffer` of src/compute/OpenCLBuffer.cpp and include/compute/OpenCLBuffer.h. What the
-- OpenCL calls return is an argument; a handle or a pointer is a number, and a null one `none`.
pub mod Ownership
mod Tests
use smooth_demon.Prelude.{ℕ, Bool, true, false, List, [], ◌∷◌, ◌++◌, Option, none, some}
use smooth_demon.Compute.Objects.{Object, Call, create, use_of, release, use_if}

pub record OpenClBuffer : Type 0 where
  pub mem : Option ℕ
  pub size_bytes : ℕ

create_calls : Option ℕ → List Call
create_calls none = []
create_calls (some m) = create (Object.buffer m) ∷ []

-- The constructor, from the context and what `clCreateBuffer` gives.
pub opencl_buffer : Option ℕ → Option ℕ → ℕ → OpenClBuffer × List Call
unfolding create_calls
opencl_buffer context created size_bytes = (
  record { mem = created; size_bytes = size_bytes },
  use_if Object.context context ++ create_calls created,
)

pub is_valid : OpenClBuffer → Bool
is_valid b = elim b.mem [ none ↦ false | some m ↦ true ]

-- `flag` is `CL_MAP_WRITE` or `CL_MAP_READ`, and `enqueue` gives the pointer for a queue, a buffer, a
-- flag, an offset and a size.
pub data MapFlag : Type 0 where
  write read : MapFlag

abbrev pub EnqueueMap : Type 0
EnqueueMap = Option ℕ → ℕ → MapFlag → ℕ → ℕ → Option ℕ

map_mem : Option ℕ → ℕ → EnqueueMap → Option ℕ → MapFlag → Option ℕ × List Call
map_mem none size_bytes enqueue queue flag = (none, [])
map_mem (some m) size_bytes enqueue queue flag =
    (enqueue queue m flag 0 size_bytes, use_if Object.queue queue ++ use_of (Object.buffer m) ∷ [])

pub map_internal : EnqueueMap → Option ℕ → MapFlag → OpenClBuffer → Option ℕ × List Call
unfolding map_mem
map_internal enqueue queue flag b = map_mem b.mem b.size_bytes enqueue queue flag

pub map_write : EnqueueMap → Option ℕ → OpenClBuffer → Option ℕ × List Call
unfolding map_internal
map_write enqueue queue b = map_internal enqueue queue MapFlag.write b

pub map_read : EnqueueMap → Option ℕ → OpenClBuffer → Option ℕ × List Call
unfolding map_internal
map_read enqueue queue b = map_internal enqueue queue MapFlag.read b

unmap_mem : Option ℕ → Option ℕ → Option ℕ → List Call
unmap_mem (some m) queue (some pointer) = use_if Object.queue queue ++ use_of (Object.buffer m) ∷ []
unmap_mem _ queue _ = []

pub unmap : Option ℕ → Option ℕ → OpenClBuffer → List Call
unfolding unmap_mem
unmap queue mapped b = unmap_mem b.mem queue mapped

release_mem : Option ℕ → List Call
release_mem none = []
release_mem (some m) = release (Object.buffer m) ∷ []

-- The destructor.
pub destroy : OpenClBuffer → OpenClBuffer × List Call
unfolding release_mem
destroy b = (record b { mem = none }, release_mem b.mem)
