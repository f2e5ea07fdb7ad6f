-- ===== src/Compute/Client.antt =====
-- A client of the OpenCL wrapper, as tests/test_opencl.cpp is one: an `OpenCLContext`, and programs
-- and buffers that are constructed with its context and used with its queue.
pub mod Parts
pub mod Among
pub mod Balance
pub mod Twice
mod Tests
use smooth_demon.Prelude.{ℕ, ◌≡◌, List, [], ◌∷◌, ◌++◌, Option}
use smooth_demon.Compute.Objects.{Call}
use smooth_demon.Compute.Context.{OpenClContext, Cl, opencl_context, initialize, shutdown}
use smooth_demon.Compute.Program.{OpenClProgram, opencl_program}
use smooth_demon.Compute.Program as Program
use smooth_demon.Compute.Program.Ownership.{Op, step}
use smooth_demon.Compute.Buffer.{
  OpenClBuffer, MapFlag, EnqueueMap, opencl_buffer, map_internal, unmap,
}
use smooth_demon.Compute.Buffer as Buffer

pub record Client : Type 0 where
  pub ocl : OpenClContext
  pub programs : List OpenClProgram
  pub buffers : List OpenClBuffer

unfoldable pub new_client : Client
new_client = record { ocl = opencl_context; programs = []; buffers = [] }

-- What a client may do, with the calls that this makes. `Shutdown` is left to a time without
-- programs, which keep the context that they are constructed with.
pub data Step (s : Client) : List Call → Client → Type 0 where
  initializes :
      (cl : Cl) → Step s (initialize cl s.ocl).2 (record s { ocl = (initialize cl s.ocl).1 })
  shuts_down : s.programs ≡ [] → Step s (shutdown s.ocl).1 (record s { ocl = (shutdown s.ocl).0 })
  constructs_program :
      Step s [] (record s { programs = opencl_program s.ocl.context s.ocl.device ∷ s.programs })
  works_on_program :
      (op : Op) (before after : List OpenClProgram) (p : OpenClProgram)
      → s.programs ≡ before ++ p ∷ after
      → Step s (step op p).1 (record s { programs = before ++ (step op p).0 ∷ after })
  destroys_program :
      (before after : List OpenClProgram) (p : OpenClProgram)
      → s.programs ≡ before ++ p ∷ after
      → Step s (Program.destroy p).1 (record s { programs = before ++ after })
  constructs_buffer :
      (created : Option ℕ) (size : ℕ)
      → Step s
          (opencl_buffer s.ocl.context created size).1
          (record s { buffers = (opencl_buffer s.ocl.context created size).0 ∷ s.buffers })
  maps :
      (enqueue : EnqueueMap) (flag : MapFlag) (before after : List OpenClBuffer) (b : OpenClBuffer)
      → s.buffers ≡ before ++ b ∷ after
      → Step s (map_internal enqueue s.ocl.queue flag b).1 s
  unmaps :
      (mapped : Option ℕ) (before after : List OpenClBuffer) (b : OpenClBuffer)
      → s.buffers ≡ before ++ b ∷ after
      → Step s (unmap s.ocl.queue mapped b) s
  destroys_buffer :
      (before after : List OpenClBuffer) (b : OpenClBuffer)
      → s.buffers ≡ before ++ b ∷ after
      → Step s (Buffer.destroy b).1 (record s { buffers = before ++ after })

pub data Run (s : Client) : List Call → Client → Type 0 where
  stays : Run s [] s
  then_step :
      {calls more : List Call} {t u : Client}
      → Run s calls t
      → Step t more u
      → Run s (calls ++ more) u

unfoldable pub destroy_programs : List OpenClProgram → List Call
destroy_programs [] = []
destroy_programs (p ∷ ps) = (Program.destroy p).1 ++ destroy_programs ps

unfoldable pub destroy_buffers : List OpenClBuffer → List Call
destroy_buffers [] = []
destroy_buffers (b ∷ bs) = (Buffer.destroy b).1 ++ destroy_buffers bs

-- The destructors at the end of the client's scope.
unfoldable pub tear_down : Client → List Call
tear_down s = destroy_buffers s.buffers ++ (destroy_programs s.programs ++ (shutdown s.ocl).1)
