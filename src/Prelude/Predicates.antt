-- ===== src/Prelude/Predicates.antt =====
-- Predicates on the elements of lists, and chains.
use Prim.Native.Nat.{ℕ, zero, suc, ◌+◌, ◌<◌}
use mathlib.Core.Path.{◌≡◌}
use mathlib.Core.List.{List, [], ◌∷◌, ◌++◌}
use native.Mathlib.Nat.{zero-add}
use native.Mathlib.Omega.{arith}
use smooth_demon.Prelude.Lists.{length, get_or, drop}
use smooth_demon.Prelude.Windows.{collect}

abbrev pub All {ℓ κ} : {A : Type ℓ} → (A → Type κ) → List A → Type κ
All P [] = Unit
All P (x ∷ xs) = P x × All P xs

module _ {ℓ κ} {A : Type ℓ} (P : A → Type κ) where
  pub All-append : (xs ys : List A) → All P xs → All P ys → All P (xs ++ ys)
  All-append [] ys p q = q
  All-append (x ∷ xs) ys (p, ps) q = (p, All-append xs ys ps q)

  pub All-parts : (xs ys : List A) → All P (xs ++ ys) → All P xs × All P ys
  All-parts [] ys p = (tt, p)
  All-parts (x ∷ xs) ys (p, ps) = let (left, right) = All-parts xs ys ps in ((p, left), right)

  pub All-get_or : (xs : List A) (i : ℕ) (d : A) → All P xs → i < length xs → P (get_or xs i d)
  All-get_or [] i d p h = absurd (omega arith)
  All-get_or (x ∷ xs) zero d p h = p.0
  All-get_or (x ∷ xs) (suc i) d p h = All-get_or xs i d p.1 (omega arith)

pub All-imp {ℓ κ η} :
    {A : Type ℓ} (P : A → Type κ) (Q : A → Type η) (xs : List A)
    → ((x : A) → P x → Q x)
    → All P xs
    → All Q xs
All-imp P Q [] f p = tt
All-imp P Q (x ∷ xs) f (p, ps) = (f x p, All-imp P Q xs f ps)

pub drop-collect {ℓ} :
    {A : Type ℓ} (f : ℕ → A) (k i n : ℕ) → drop k (collect f i (k + n)) ≡ collect f (i + k) n
drop-collect f zero i n = let e : i + 0 ≡ i = omega arith in rw (e, zero-add)
drop-collect f (suc k) i n =
    let e : suc k + n ≡ suc (k + n) = omega arith in
    let s : i + suc k ≡ i + 1 + k = omega arith in rw (e, s) (drop-collect f k (i + 1) n)
