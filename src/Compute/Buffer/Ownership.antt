-- ===== src/Compute/Buffer/Ownership.antt =====
-- The references that a buffer is.
use mathlib.Core.Path.{fun_ext}
use smooth_demon.Prelude.{ℕ, refl, [], ◌∷◌, ◌++◌, Option, none, some, arith, All}
use smooth_demon.Compute.Objects.{
  Object, use_of, Runtime, one_if, same_object, allowed, perform, performs, perform_all, Turns,
  Turns-append, Turns-nil, use_if,
}
use smooth_demon.Compute.Objects.Accounts.{Frees}
use smooth_demon.Compute.Objects.Sharing.{both, Turns-both, Holds, use_if-Turns, Holds-both}
use smooth_demon.Compute.Buffer.{
  OpenClBuffer, MapFlag, EnqueueMap, create_calls, opencl_buffer, map_mem, map_internal, unmap_mem,
  unmap, release_mem, destroy,
}

unfoldable pub held_by : Option ℕ → Runtime
held_by none x = 0
held_by (some m) x = one_if (same_object x (Object.buffer m))

abbrev pub held : OpenClBuffer → Runtime
held b = held_by b.mem

create_calls-Turns :
    (created : Option ℕ) → Turns (create_calls created) (held_by none) (held_by created)
unfolding create_calls held_by performs perform_all perform allowed
create_calls-Turns none = (refl, refl)
create_calls-Turns (some m) = (refl, fun_ext (λ x. omega arith))

pub opencl_buffer-Turns :
    (context created : Option ℕ) (size_bytes : ℕ) (r : Runtime)
    → Holds Object.context context r
    → let (b, calls) = opencl_buffer context created size_bytes in
      Turns calls (both r (held_by none)) (both r (held b))
unfolding opencl_buffer
opencl_buffer-Turns context created size_bytes r holds =
    let none_yet = both r (held_by none) in
    Turns-append (use_if Object.context context) (create_calls created) none_yet none_yet _
      (use_if-Turns Object.context context none_yet
        (Holds-both Object.context context r (held_by none) holds))
      (Turns-both (create_calls created) r (held_by none) (held_by created)
        (create_calls-Turns created))

release_mem-Turns : (mem : Option ℕ) → Turns (release_mem mem) (held_by mem) (held_by none)
unfolding release_mem held_by performs perform_all perform allowed
release_mem-Turns none = (refl, refl)
release_mem-Turns (some m) = (ground arith, fun_ext (λ x. omega arith))

pub destroy-Turns : (b : OpenClBuffer) → Turns (destroy b).1 (held b) (held_by none)
unfolding destroy
destroy-Turns b = release_mem-Turns b.mem

release_mem-Frees : (mem : Option ℕ) → All Frees (release_mem mem)
unfolding release_mem
release_mem-Frees none = tt
release_mem-Frees (some m) = (tt, tt)

pub destroy-Frees : (b : OpenClBuffer) → All Frees (destroy b).1
unfolding destroy
destroy-Frees b = release_mem-Frees b.mem

-- A use of a buffer through a queue.
used-Turns :
    (queue : Option ℕ) (m : ℕ) (r : Runtime)
    → Holds Object.queue queue r
    → Turns
        (use_if Object.queue queue ++ use_of (Object.buffer m) ∷ [])
        (both r (held_by (some m)))
        (both r (held_by (some m)))
unfolding held_by performs perform_all perform allowed
used-Turns queue m r holds =
    let all = both r (held_by (some m)) in
    Turns-append (use_if Object.queue queue) (use_of (Object.buffer m) ∷ []) all all all
      (use_if-Turns Object.queue queue all
        (Holds-both Object.queue queue r (held_by (some m)) holds))
      (Turns-both (use_of (Object.buffer m) ∷ []) r (held_by (some m)) (held_by (some m))
        (ground arith, refl))

map_mem-Turns :
    (mem : Option ℕ) (size : ℕ) (enqueue : EnqueueMap) (queue : Option ℕ) (flag : MapFlag)
    (r : Runtime)
    → Holds Object.queue queue r
    → Turns (map_mem mem size enqueue queue flag).1 (both r (held_by mem)) (both r (held_by mem))
unfolding map_mem
map_mem-Turns none size enqueue queue flag r holds = Turns-nil (both r (held_by none))
map_mem-Turns (some m) size enqueue queue flag r holds = used-Turns queue m r holds

pub map_internal-Turns :
    (enqueue : EnqueueMap) (queue : Option ℕ) (flag : MapFlag) (b : OpenClBuffer) (r : Runtime)
    → Holds Object.queue queue r
    → Turns (map_internal enqueue queue flag b).1 (both r (held b)) (both r (held b))
unfolding map_internal
map_internal-Turns enqueue queue flag b r holds =
    map_mem-Turns b.mem b.size_bytes enqueue queue flag r holds

unmap_mem-Turns :
    (mem queue mapped : Option ℕ) (r : Runtime)
    → Holds Object.queue queue r
    → Turns (unmap_mem mem queue mapped) (both r (held_by mem)) (both r (held_by mem))
unfolding unmap_mem
unmap_mem-Turns none queue mapped r holds = Turns-nil (both r (held_by none))
unmap_mem-Turns (some m) queue none r holds = Turns-nil (both r (held_by (some m)))
unmap_mem-Turns (some m) queue (some pointer) r holds = used-Turns queue m r holds

pub unmap-Turns :
    (queue mapped : Option ℕ) (b : OpenClBuffer) (r : Runtime)
    → Holds Object.queue queue r
    → Turns (unmap queue mapped b) (both r (held b)) (both r (held b))
unfolding unmap
unmap-Turns queue mapped b r holds = unmap_mem-Turns b.mem queue mapped r holds
