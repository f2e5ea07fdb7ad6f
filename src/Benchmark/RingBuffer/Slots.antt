-- ===== src/Benchmark/RingBuffer/Slots.antt =====
-- The slots that `RingBuffer` reads and writes, and its representation invariant.
use native.Mathlib.Nat.{mod-eq_of_lt, mod-eq-sub-mod, mod_self}
use native.Mathlib.Decide.{dec_lt}
use smooth_demon.Prelude.{
  ℕ, ◌+◌, ◌-◌, ◌%◌, ◌^◌, ◌≤◌, ◌<◌, ◌≡◌, ◌≢◌, ◌⊎◌, inl, inr, ◌∙◌, refl, arith, lt→ltb, length,
  length-replicate, length-set,
}
use smooth_demon.Prelude.Words.{add64, add64_of_lt}
use smooth_demon.Benchmark.RingBuffer.{RingBuffer, ring_buffer, push, clear, slot_of}

mod_wrap : (x m : ℕ) → x < m + m → ((x < m) × (x % m ≡ x)) ⊎ ((m ≤ x) × (x % m ≡ x - m))
mod_wrap x m h = elim (dec_lt x m) [
  | yes lt ↦ inl (lt, mod-eq_of_lt lt)
  | no ge ↦ inr (
    omega arith,
    mod-eq-sub-mod {n = x} {m = m} (omega arith) ∙ mod-eq_of_lt {n = x - m} {m = m} (omega arith),
  )
]

module _ {ℓ} {T : Type ℓ} (capacity : ℕ) (zero_value : T) where
  -- The representation invariant; the bound keeps the index sums of `size_t` from wrapping.
  pub record IsValid (b : RingBuffer T) : Type 0 where
    pub filled : length b.slots ≡ capacity
    pub head_lt : b.head < capacity
    pub count_le : b.count ≤ capacity
    pub head_eq : b.count < capacity → b.head ≡ b.count
    pub small : capacity ≤ 2 ^ 63

  pub ring_buffer-IsValid :
      0 < capacity → capacity ≤ 2 ^ 63 → IsValid (ring_buffer capacity zero_value)
  unfolding ring_buffer
  ring_buffer-IsValid pos small = record {
    filled = length-replicate capacity zero_value;
    head_lt = pos;
    count_le = omega arith;
    head_eq = λ _. refl;
    small = small;
  }

  pub clear-IsValid : (b : RingBuffer T) → IsValid b → IsValid (clear capacity zero_value b)
  unfolding clear
  clear-IsValid b w = ground arith

  -- The index after `h` round the ring.
  next_slot : (h : ℕ) → h < capacity → capacity ≤ 2 ^ 63 → add64 h 1 % capacity < capacity
  next_slot h lt le = grind arith

  next_slot_eq :
      (h : ℕ)
      → h < capacity
      → capacity ≤ 2 ^ 63
      → (h + 1 < capacity → add64 h 1 % capacity ≡ h + 1)
        × (h + 1 ≡ capacity → add64 h 1 % capacity ≡ 0)
  next_slot_eq h lt le = (
    λ inside. rw (add64_of_lt h 1 (omega arith)) (mod-eq_of_lt inside),
    λ at_end. rw (add64_of_lt h 1 (omega arith), at_end) (mod_self capacity),
  )

  -- `Push` keeps the representation invariant.
  pub push-IsValid : (b : RingBuffer T) (v : T) → IsValid b → IsValid (push capacity zero_value b v)
  unfolding push
  push-IsValid b v w = record {
    filled = length-set b.slots b.head v ∙ w.filled;
    head_lt = next_slot b.head w.head_lt w.small;
    count_le = ground arith;
    head_eq = ground (arith, next_slot_eq b.head w.head_lt w.small);
    small = w.small;
  }

  -- Every index below the size is read inside the array.
  pub slot_of_in_range :
      (b : RingBuffer T) (i : ℕ)
      → IsValid b
      → i < b.count
      → slot_of capacity zero_value b i < length b.slots
  unfolding slot_of
  slot_of_in_range b i w h = elim (dec_lt b.count capacity) [
    | yes lt ↦ rw (lt→ltb b.count capacity lt) (omega arith)
    | no ge ↦ grind arith
  ]

  -- While there is room, index `i` is slot `i`, also after the push.
  pub slot_of-push_room :
      (b : RingBuffer T) (v : T) (i : ℕ)
      → IsValid b
      → b.count < capacity
      → i ≤ b.count
      → slot_of capacity zero_value (push capacity zero_value b v) i ≡ i
  unfolding slot_of push
  slot_of-push_room b v i w room le = ground (
    arith,
    next_slot_eq b.head w.head_lt w.small,
    add64_of_lt 0 i (omega arith),
    mod_wrap i capacity,
  )

  -- Index `i` counted from the next slot is index `i + 1` counted from this one.
  around :
      (h i n : ℕ)
      → h < capacity
      → i + 1 ≤ capacity
      → capacity ≤ 2 ^ 63
      → n ≡ add64 h 1 % capacity
      → (add64 n i % capacity ≡ add64 h (i + 1) % capacity)
        × (i + 1 < capacity → add64 h (i + 1) % capacity ≢ h)
        × (i + 1 ≡ capacity → add64 h (i + 1) % capacity ≡ h)
  around h i n lt le small e =
      let next = next_slot_eq h lt small in
      let low : n < capacity = rw e (next_slot h lt small) in
      let sums = add64_of_lt h (i + 1) (omega arith) in
      rw (add64_of_lt n i (omega arith), sums)
        (ground (arith, next, mod_wrap (n + i) capacity, mod_wrap (h + (i + 1)) capacity))

  -- In a full buffer each element moves down by one index.
  pub slot_of-push_full :
      (b : RingBuffer T) (v : T) (i : ℕ)
      → IsValid b
      → b.count ≡ capacity
      → i + 1 < capacity
      → let slot = slot_of capacity zero_value (push capacity zero_value b v) i in
        (slot ≡ slot_of capacity zero_value b (i + 1)) × (slot ≢ b.head)
  unfolding slot_of push
  slot_of-push_full b v i w full lt =
      ground
        (arith, around b.head i (add64 b.head 1 % capacity) w.head_lt (omega arith) w.small refl)

  pub slot_of-push_last :
      (b : RingBuffer T) (v : T) (i : ℕ)
      → IsValid b
      → b.count ≡ capacity
      → i + 1 ≡ capacity
      → slot_of capacity zero_value (push capacity zero_value b v) i ≡ b.head
  unfolding slot_of push
  slot_of-push_last b v i w full lt =
      ground
        (arith, around b.head i (add64 b.head 1 % capacity) w.head_lt (omega arith) w.small refl)
