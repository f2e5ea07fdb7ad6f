-- ===== src/Compute/Buffer/Tests.antt =====
-- The buffer at concrete inputs, and the life of one.
use smooth_demon.Prelude.{ℕ, ◌+◌, ◌≡◌, refl, true, List, [], ◌++◌, Option, none, some}
use smooth_demon.Compute.Objects.{Call, no_objects, perform, performs, allowed}
use smooth_demon.Compute.Buffer.{EnqueueMap, opencl_buffer, map_write, map_read, unmap, destroy}

abbrev enqueue : EnqueueMap
enqueue queue m flag offset size = some (offset + 16)

abbrev uses : Option ℕ → List Call
unfolding opencl_buffer map_write map_read unmap destroy
uses created =
    let (b, created_calls) = opencl_buffer none created 4096 in
    let (pointer, mapped) = map_write enqueue none b in
    let (other, mapped_again) = map_read enqueue none b in
    created_calls
    ++ mapped
    ++ unmap none pointer b
    ++ mapped_again
    ++ unmap none other b
    ++ (destroy b).1

lives : performs (uses (some 3)) no_objects ≡ true
unfolding performs perform allowed uses
lives = refl

lives_without : uses none ≡ []
unfolding uses
lives_without = refl
