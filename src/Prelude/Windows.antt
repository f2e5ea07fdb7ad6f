-- ===== src/Prelude/Windows.antt =====
-- The last elements of a list, and lists given by a function of the index.
use Prim.Native.Nat.{ℕ, zero, suc, ◌+◌, ◌-◌, ◌≤◌, ◌<◌, min}
use mathlib.Core.Path.{◌≡◌, refl, ap, ap₂}
use mathlib.Core.List.{List, [], ◌∷◌, ◌++◌}
use native.Mathlib.Nat.{zero-add, add-zero}
use native.Mathlib.Decide.{dec_le}
use native.Mathlib.Omega.{arith}
use smooth_demon.Prelude.Lists.{length, length-append, length-drop, drop}

module _ {ℓ} {A : Type ℓ} where
  -- The last `n` elements, or all of them.
  abbrev pub keep_last : ℕ → List A → List A
  keep_last n xs = drop (length xs - n) xs

  drop-nil : (n : ℕ) → drop {A = A} n [] ≡ []
  drop-nil zero = refl
  drop-nil (suc n) = refl

  drop-drop : (j k : ℕ) (xs : List A) → drop j (drop k xs) ≡ drop (k + j) xs
  drop-drop j zero xs = rw zero-add
  drop-drop j (suc k) [] = rw (drop-nil j, drop-nil (suc k + j))
  drop-drop j (suc k) (x ∷ xs) =
      let e : suc k + j ≡ suc (k + j) = omega arith in rw e (drop-drop j k xs)

  pub drop-append_of_le :
      (k : ℕ) (xs ys : List A) → k ≤ length xs → drop k (xs ++ ys) ≡ drop k xs ++ ys
  drop-append_of_le zero xs ys h = refl
  drop-append_of_le (suc k) [] ys h = absurd (omega arith)
  drop-append_of_le (suc k) (x ∷ xs) ys h = drop-append_of_le k xs ys (omega arith)

  pub keep_last_of_le : (n : ℕ) (xs : List A) → length xs ≤ n → keep_last n xs ≡ xs
  keep_last_of_le n xs h = let e : length xs - n ≡ 0 = omega arith in rw e

  pub length-keep_last : (n : ℕ) (xs : List A) → length (keep_last n xs) ≡ min n (length xs)
  length-keep_last n xs = omega (arith, length-drop (length xs - n) xs)

  -- Forgetting early does not change what is kept in the end.
  pub keep_last-append_keep_last :
      (n : ℕ) (xs ys : List A) → keep_last n (keep_last n xs ++ ys) ≡ keep_last n (xs ++ ys)
  keep_last-append_keep_last n xs ys = elim (dec_le (length xs) n) [
    | yes le ↦ rw (keep_last_of_le n xs le)
    | no gt ↦
        let k = length xs - n in
        let n_le : k ≤ length xs = omega arith in
        let kept : length (drop k xs) ≡ n = omega (arith, length-drop k xs) in
        let rest : length (drop k xs ++ ys) - n ≡ length ys =
          omega (arith, length-append (drop k xs) ys) in
        let all : length (xs ++ ys) - n ≡ k + length ys = omega (arith, length-append xs ys) in
        rw (rest, all, ← drop-append_of_le k xs ys n_le) (drop-drop (length ys) k (xs ++ ys))
  ]

  -- `f i`, `f (i + 1)`, and so on: `n` values.
  abbrev pub collect : (ℕ → A) → ℕ → ℕ → List A
  collect f i zero = []
  collect f i (suc n) = f i ∷ collect f (i + 1) n

  pub length-collect : (f : ℕ → A) (i n : ℕ) → length (collect f i n) ≡ n
  length-collect f i zero = refl
  length-collect f i (suc n) = ap suc (length-collect f (i + 1) n)

  pub collect-suc : (f : ℕ → A) (i n : ℕ) → collect f i (suc n) ≡ collect f i n ++ (f (i + n) ∷ [])
  collect-suc f i zero = rw add-zero
  collect-suc f i (suc n) =
      let e : i + 1 + n ≡ i + suc n = omega arith in
      ap (◌∷◌ (f i)) (rw (← e) (collect-suc f (i + 1) n))

  pub collect-congr :
      (f g : ℕ → A) (i j n : ℕ)
      → ((k : ℕ) → k < n → f (i + k) ≡ g (j + k))
      → collect f i n ≡ collect g j n
  collect-congr f g i j zero h = refl
  collect-congr f g i j (suc n) h = ap₂ ◌∷◌ (rw (add-zero, add-zero) at (h 0 (omega arith))) (
      collect-congr f g (i + 1) (j + 1) n (λ k lt.
        let e : (m : ℕ) → m + 1 + k ≡ m + suc k = λ m. omega arith in
        rw (e i, e j) (h (suc k) (omega arith))))
