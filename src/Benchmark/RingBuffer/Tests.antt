-- ===== src/Benchmark/RingBuffer/Tests.antt =====
-- The theorems on the ring buffer at concrete inputs.
use smooth_demon.Prelude.{ℕ, ◌≡◌, [], ◌∷◌, ◌++◌, arith, keep_last}
use smooth_demon.Double.Fixed.{fixed_double}
use smooth_demon.Benchmark.RingBuffer.{RingBuffer}
use smooth_demon.Benchmark.RingBuffer.Slots.{IsValid}
use smooth_demon.Benchmark.RingBuffer.Contents.{contents, push_all, push_all_refines}

-- A buffer of three slots that holds 7, 8, 9, with 8 in the first slot.
abbrev wrapped : RingBuffer ℕ
wrapped = record { slots = 8 ∷ 9 ∷ 7 ∷ []; head = 2; count = 3 }

wrapped-IsValid : IsValid 3 0 wrapped
wrapped-IsValid = omega arith

push_all_refines_example :
    (contents 3 0 (push_all 3 0 wrapped (1 ∷ 2 ∷ 3 ∷ 4 ∷ []))
      ≡ keep_last 3 (contents 3 0 wrapped ++ (1 ∷ 2 ∷ 3 ∷ 4 ∷ [])))
    × IsValid 3 0 (push_all 3 0 wrapped (1 ∷ 2 ∷ 3 ∷ 4 ∷ []))
push_all_refines_example = push_all_refines 3 0 wrapped (1 ∷ 2 ∷ 3 ∷ 4 ∷ []) wrapped-IsValid
