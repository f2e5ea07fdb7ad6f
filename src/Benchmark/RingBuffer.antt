-- ===== src/Benchmark/RingBuffer.antt =====
-- `RingBuffer<T, Capacity>` of include/benchmark/RingBuffer.h, for every element type and capacity.
pub mod Slots
pub mod Contents
mod Tests
use smooth_demon.Prelude.{
  ℕ, zero, suc, ◌+◌, ◌%◌, ◌≡◌, Bool, List, [], ◌∷◌, ◌++◌, ltb, ◌==◌, if◌then◌else◌, get_or, set,
  replicate,
}
use smooth_demon.Prelude.Words.{add64}

pub record RingBuffer {ℓ} (T : Type ℓ) : Type ℓ where
  pub slots : List T
  pub head : ℕ
  pub count : ℕ

-- `zero_value` is `T{}`, which fills the array at first.
module _ {ℓ} {T : Type ℓ} (capacity : ℕ) (zero_value : T) where
  unfoldable pub ring_buffer : RingBuffer T
  ring_buffer = record { slots = replicate capacity zero_value; head = 0; count = 0 }

  pub push : RingBuffer T → T → RingBuffer T
  push b value = record b {
    slots = set b.slots b.head value;
    head = add64 b.head 1 % capacity;
    count = if ltb b.count capacity then add64 b.count 1 else b.count;
  }

  unfoldable pub size : RingBuffer T → ℕ
  size b = b.count

  pub is_empty : RingBuffer T → Bool
  is_empty b = b.count == 0

  pub clear : RingBuffer T → RingBuffer T
  clear b = record b { head = 0; count = 0 }

  -- The slot that `operator[]` reads for index `i`.
  pub slot_of : RingBuffer T → ℕ → ℕ
  slot_of b i = if ltb b.count capacity then i else add64 b.head i % capacity

  -- `operator[]`. A read outside the array does not arise: see `slot_of_in_range`.
  pub at : RingBuffer T → ℕ → T
  at b i = get_or b.slots (slot_of b i) zero_value

  -- The rounds of `CopyTo` that are left, from index `i` on.
  pub copy_from : RingBuffer T → ℕ → ℕ → List T → List T
  copy_from b zero i dest = dest
  copy_from b (suc left) i dest = copy_from b left (i + 1) (dest ++ (at b i ∷ []))

  pub copy_to : RingBuffer T → List T → List T
  unfolding copy_from
  copy_to b dest = copy_from b b.count 0 dest
