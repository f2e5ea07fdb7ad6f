-- ===== src/Benchmark/RingBuffer/Contents.antt =====
-- The ring buffer keeps the newest elements of its history.
use mathlib.Core.List.{append-nil, append_assoc}
use native.Mathlib.Nat.{zero-add, add_comm}
use native.Mathlib.Decide.{dec_lt}
use mathlib.Core.Path.{ap₂}
use smooth_demon.Prelude.{
  ℕ, zero, suc, ◌+◌, ◌-◌, ◌<◌, ◌≡◌, ◌≢◌, ◌∙◌, sym, ap, refl, List, [], ◌∷◌, ◌++◌, arith, drop,
  drop-append_of_le, length-append, keep_last_of_le, keep_last-append_keep_last, length, get_or,
  set, collect, collect-suc, collect-congr, length-collect, keep_last,
}
use smooth_demon.Benchmark.RingBuffer.Slots.{
  IsValid, push-IsValid, slot_of-push_room, slot_of-push_full, slot_of-push_last,
}
use smooth_demon.Benchmark.RingBuffer.{
  RingBuffer, ring_buffer, push, clear, slot_of, at, copy_from, copy_to,
}

module _ {ℓ} {T : Type ℓ} where
  get_or-set_self : (xs : List T) (i : ℕ) (v d : T) → i < length xs → get_or (set xs i v) i d ≡ v
  get_or-set_self [] i v d h = absurd (omega arith)
  get_or-set_self (x ∷ xs) zero v d h = refl
  get_or-set_self (x ∷ xs) (suc i) v d h = get_or-set_self xs i v d (omega arith)

  get_or-set_ne :
      (xs : List T) (i j : ℕ) (v d : T) → i ≢ j → get_or (set xs i v) j d ≡ get_or xs j d
  get_or-set_ne [] i j v d h = refl
  get_or-set_ne (x ∷ xs) zero zero v d h = absurd (h refl)
  get_or-set_ne (x ∷ xs) zero (suc j) v d h = refl
  get_or-set_ne (x ∷ xs) (suc i) zero v d h = refl
  get_or-set_ne (x ∷ xs) (suc i) (suc j) v d h = get_or-set_ne xs i j v d (λ e. h (ap suc e))

module _ {ℓ} {T : Type ℓ} (capacity : ℕ) (zero_value : T) where
  abbrev pub contents : RingBuffer T → List T
  contents b = copy_to capacity zero_value b []

  copy_from-eq_append :
      (b : RingBuffer T) (n i : ℕ) (dest : List T)
      → copy_from capacity zero_value b n i dest ≡ dest ++ collect (at capacity zero_value b) i n
  unfolding copy_from
  copy_from-eq_append b zero i dest = sym (append-nil dest)
  copy_from-eq_append b (suc n) i dest =
      copy_from-eq_append b n (i + 1) (dest ++ (at capacity zero_value b i ∷ []))
      ∙ append_assoc dest (at capacity zero_value b i ∷ [])
          (collect (at capacity zero_value b) (i + 1) n)

  pub contents-eq-collect :
      (b : RingBuffer T) → contents b ≡ collect (at capacity zero_value b) 0 b.count
  unfolding copy_to
  contents-eq-collect b = copy_from-eq_append b b.count 0 []

  pub contents-ring_buffer : contents (ring_buffer capacity zero_value) ≡ []
  unfolding ring_buffer
  contents-ring_buffer = contents-eq-collect (ring_buffer capacity zero_value)

  pub contents-clear : (b : RingBuffer T) → contents (clear capacity zero_value b) ≡ []
  unfolding clear
  contents-clear b = contents-eq-collect (clear capacity zero_value b)

  at_old :
      (b : RingBuffer T) (v : T) (i : ℕ)
      → IsValid capacity zero_value b
      → b.count < capacity
      → i < b.count
      → at capacity zero_value (push capacity zero_value b v) i ≡ at capacity zero_value b i
  unfolding at push slot_of
  at_old b v i w room lt = ground (
    arith,
    slot_of-push_room capacity zero_value b v i w room (omega arith),
    get_or-set_ne b.slots b.head i v zero_value (omega (arith, w.head_eq room)),
  )

  at_new :
      (b : RingBuffer T) (v : T)
      → IsValid capacity zero_value b
      → b.count < capacity
      → at capacity zero_value (push capacity zero_value b v) b.count ≡ v
  unfolding at push slot_of
  at_new b v w room = ground (
    arith,
    slot_of-push_room capacity zero_value b v b.count w room (omega arith),
    get_or-set_self b.slots b.head v zero_value,
  )

  at_shifted :
      (b : RingBuffer T) (v : T) (i : ℕ)
      → IsValid capacity zero_value b
      → b.count ≡ capacity
      → i + 1 < capacity
      → at capacity zero_value (push capacity zero_value b v) i ≡ at capacity zero_value b (i + 1)
  unfolding at push
  at_shifted b v i w full lt =
      let (moved, other) = slot_of-push_full capacity zero_value b v i w full lt in
      get_or-set_ne b.slots b.head _ v zero_value (λ e. other (sym e))
      ∙ ap (λ (k : ℕ). get_or b.slots k zero_value) moved

  at_last :
      (b : RingBuffer T) (v : T) (i : ℕ)
      → IsValid capacity zero_value b
      → b.count ≡ capacity
      → i + 1 ≡ capacity
      → at capacity zero_value (push capacity zero_value b v) i ≡ v
  unfolding at push
  at_last b v i w full lt =
      ap (λ (k : ℕ). get_or (set b.slots b.head v) k zero_value)
        (slot_of-push_last capacity zero_value b v i w full lt)
      ∙ get_or-set_self b.slots b.head v zero_value (omega arith)

  count_room :
      (b : RingBuffer T) (v : T)
      → IsValid capacity zero_value b
      → b.count < capacity
      → (push capacity zero_value b v).count ≡ suc b.count
  unfolding push
  count_room b v w room = ground arith

  count_full :
      (b : RingBuffer T) (v : T)
      → IsValid capacity zero_value b
      → b.count ≡ capacity
      → (push capacity zero_value b v).count ≡ capacity
  unfolding push
  count_full b v w full = ground arith

  contents-push :
      (b : RingBuffer T) (v : T) (n : ℕ)
      → (push capacity zero_value b v).count ≡ suc n
      → contents (push capacity zero_value b v)
        ≡ collect (at capacity zero_value (push capacity zero_value b v)) 0 n
          ++ (at capacity zero_value (push capacity zero_value b v) n ∷ [])
  contents-push b v n e =
      let next = push capacity zero_value b v in
      let f = at capacity zero_value next in
      contents-eq-collect next
      ∙ ap (collect f 0) e
      ∙ collect-suc f 0 n
      ∙ ap (λ (k : ℕ). collect f 0 n ++ (f k ∷ [])) (zero-add n)

  -- While there is room a push appends.
  contents_room :
      (b : RingBuffer T) (v : T)
      → IsValid capacity zero_value b
      → b.count < capacity
      → contents (push capacity zero_value b v) ≡ contents b ++ (v ∷ [])
  contents_room b v w room =
      contents-push b v b.count (count_room b v w room)
      ∙ ap₂ (λ (xs : List T) (x : T). xs ++ (x ∷ []))
          (collect-congr _ _ 0 0 b.count (λ k lt. rw zero-add (at_old b v k w room lt))
            ∙ sym (contents-eq-collect b))
          (at_new b v w room)

  -- A full buffer loses its oldest element.
  contents_full :
      (b : RingBuffer T) (v : T)
      → IsValid capacity zero_value b
      → b.count ≡ capacity
      → contents (push capacity zero_value b v) ≡ drop 1 (contents b) ++ (v ∷ [])
  contents_full b v w full =
      let n = capacity - 1 in
      let count : (push capacity zero_value b v).count ≡ suc n =
        count_full b v w full ∙ omega arith in
      let old = at capacity zero_value b in
      let size : b.count ≡ suc n = omega (arith, w.head_lt) in
      let rest : contents b ≡ collect old 0 (suc n) =
        contents-eq-collect b ∙ ap (collect old 0) size in
      contents-push b v n count
      ∙ ap₂ (λ (xs : List T) (x : T). xs ++ (x ∷ []))
          (collect-congr _ old 0 1 n
              (λ k lt. rw (zero-add k, add_comm 1 k) (at_shifted b v k w full (omega arith)))
            ∙ ap (drop 1) (sym rest))
          (at_last b v n w full (omega arith))

  pub length-contents : (b : RingBuffer T) → length (contents b) ≡ b.count
  length-contents b =
      ap length (contents-eq-collect b) ∙ length-collect (at capacity zero_value b) 0 b.count

  -- A push appends the element and keeps the newest `capacity` elements, oldest first.
  pub push_refines :
      (b : RingBuffer T) (v : T)
      → IsValid capacity zero_value b
      → contents (push capacity zero_value b v) ≡ keep_last capacity (contents b ++ (v ∷ []))
  push_refines b v w =
      let len = length-contents b in
      let more = length-append (contents b) (v ∷ []) in
      elim (dec_lt b.count capacity) [
        | yes room ↦
            contents_room b v w room
            ∙ sym (keep_last_of_le capacity (contents b ++ (v ∷ [])) (omega arith))
        | no ge ↦
            let full : b.count ≡ capacity = omega (arith, w.count_le) in
            let one : length (contents b ++ (v ∷ [])) - capacity ≡ 1 = omega arith in
            contents_full b v w full
            ∙ rw one (sym (drop-append_of_le 1 (contents b) (v ∷ []) (omega (arith, w.head_lt))))
      ]

  pub push_all : RingBuffer T → List T → RingBuffer T
  push_all b [] = b
  push_all b (v ∷ vs) = push_all (push capacity zero_value b v) vs

  -- After any number of pushes the buffer holds the newest `capacity` elements of its whole history,
  -- oldest first, and its representation is valid.
  pub push_all_refines :
      (b : RingBuffer T) (vs : List T)
      → IsValid capacity zero_value b
      → (contents (push_all b vs) ≡ keep_last capacity (contents b ++ vs))
        × IsValid capacity zero_value (push_all b vs)
  unfolding push_all
  push_all_refines b [] w = (
    rw append-nil (
        sym (keep_last_of_le capacity (contents b) (omega (arith, length-contents b, w.count_le)))),
    w,
  )
  push_all_refines b (v ∷ vs) w =
      let (kept, valid) =
        push_all_refines (push capacity zero_value b v) vs
          (push-IsValid capacity zero_value b v w) in
      (
        kept
            ∙ rw (push_refines b v w, keep_last-append_keep_last)
                (ap (keep_last capacity) (append_assoc (contents b) (v ∷ []) vs)),
        valid,
      )
