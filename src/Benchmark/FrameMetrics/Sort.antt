-- ===== src/Benchmark/FrameMetrics/Sort.antt =====
-- A list in another order: what the percentiles, which are read behind `std::sort`, keep.
use mathlib.Core.Logic.{∥∥₁_elim}
use mathlib.Core.List.{Perm, Permᴰ}
use native.Mathlib.Nat.{ℕ_set}
use mathlib.Core.Path.{subst}
use smooth_demon.Prelude.{suc, ◌≡◌, ◌∙◌, sym, ap, refl, List, [], ◌∷◌, All, length}

length-Permᴰ : {A : Type 0} {xs ys : List A} → Permᴰ xs ys → length xs ≡ length ys
length-Permᴰ Permᴰ.nil = refl
length-Permᴰ (Permᴰ.cons e p) = ap suc (length-Permᴰ p)
length-Permᴰ (Permᴰ.swap e f) = refl
length-Permᴰ (Permᴰ.trans p q) = length-Permᴰ p ∙ length-Permᴰ q

pub length-Perm : {A : Type 0} {xs ys : List A} → Perm xs ys → length xs ≡ length ys
length-Perm p = ∥∥₁_elim p (ℕ_set _ _) (λ q. length-Permᴰ q)

All-Permᴰ : {A : Type 0} (P : A → Type 0) {xs ys : List A} → Permᴰ xs ys → All P ys → All P xs
All-Permᴰ P Permᴰ.nil h = h
All-Permᴰ P (Permᴰ.cons e p) (h, hs) = (subst P (sym e) h, All-Permᴰ P p hs)
All-Permᴰ P (Permᴰ.swap e f) (h, (k, hs)) = (subst P (sym e) k, (subst P (sym f) h, hs))
All-Permᴰ P (Permᴰ.trans p q) h = All-Permᴰ P p (All-Permᴰ P q h)

All-IsProp :
    {A : Type 0} (P : A → Type 0) → ((x : A) → IsProp (P x)) → (xs : List A) → IsProp (All P xs)
All-IsProp P prop [] = hlevel
All-IsProp P prop (x ∷ xs) =
    let head = prop x in let tail = All-IsProp P prop xs in hlevel (head, tail)

pub All-Perm :
    {A : Type 0} (P : A → Type 0) {xs ys : List A}
    → ((x : A) → IsProp (P x))
    → Perm xs ys
    → All P ys
    → All P xs
All-Perm P {xs} prop p h = ∥∥₁_elim p (All-IsProp P prop xs) (λ q. All-Permᴰ P q h)
