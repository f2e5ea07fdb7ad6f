-- ===== src/Gpu/Order.antt =====
-- Two descriptors merged in either order.
use smooth_demon.Prelude.{
  ℕ, ◌-◌, ◌≡◌, refl, sym, ap, Bool, true, false, [], ◌∷◌, arith, ◌==◌, if◌then◌else◌, Bool-cases,
  ==_iff, inl, inr,
}
use smooth_demon.Prelude.Words.{add64}
use smooth_demon.Gpu.{FdInfo, larger, ClientMap, raise, merge, total_render, total_copy}
use smooth_demon.Gpu.Usage.{render_of, copy_of}

-- What a total grows by when a slot takes a value.
abbrev gain : ℕ → ℕ → ℕ
gain slot v = larger slot v - slot

add64-gain :
    (slot v total : ℕ) → add64 (larger slot v) total ≡ add64 (add64 slot total) (gain slot v)
unfolding larger
add64-gain slot v total = ground arith

add64_push : (a b c : ℕ) → add64 a (add64 b c) ≡ add64 (add64 a b) c
add64_push a b c = omega arith

pub total_render-merge :
    (i : FdInfo) (cs : ClientMap)
    → total_render (merge i cs)
      ≡ add64 (total_render cs) (gain (render_of i.client_id cs) i.render_ns)
unfolding total_render merge raise render_of
total_render-merge i [] = omega arith
total_render-merge i (c ∷ cs) = elim (Bool-cases (c.0 == i.client_id)) [
  | inl same ↦ rw same (add64-gain c.1.render_ns i.render_ns (total_render cs))
  | inr other ↦
      rw (other, total_render-merge i cs)
        (add64_push c.1.render_ns (total_render cs) (gain (render_of i.client_id cs) i.render_ns))
]

pub total_copy-merge :
    (i : FdInfo) (cs : ClientMap)
    → total_copy (merge i cs) ≡ add64 (total_copy cs) (gain (copy_of i.client_id cs) i.copy_ns)
unfolding total_copy merge raise copy_of
total_copy-merge i [] = omega arith
total_copy-merge i (c ∷ cs) = elim (Bool-cases (c.0 == i.client_id)) [
  | inl same ↦ rw same (add64-gain c.1.copy_ns i.copy_ns (total_copy cs))
  | inr other ↦
      rw (other, total_copy-merge i cs)
        (add64_push c.1.copy_ns (total_copy cs) (gain (copy_of i.client_id cs) i.copy_ns))
]

-- Two lists that a lookup and a total cannot tell apart.
abbrev pub Alike : (ℕ → ClientMap → ℕ) → (ClientMap → ℕ) → ClientMap → ClientMap → Type 0
Alike of total cs ds = ((id : ℕ) → of id cs ≡ of id ds) × (total cs ≡ total ds)

swap_slots :
    (slot x y : ℕ) (to_x to_y : Bool)
    → (if to_x
        then larger (if to_y then larger slot y else slot) x
        else (if to_y then larger slot y else slot))
      ≡ (if to_y
          then larger (if to_x then larger slot x else slot) y
          else (if to_x then larger slot x else slot))
unfolding larger
swap_slots slot x y true true = ground arith
swap_slots slot x y true false = refl
swap_slots slot x y false true = refl
swap_slots slot x y false false = refl

swap_gains :
    (a b total x y : ℕ) (same : Bool)
    → (same ≡ true → a ≡ b)
    → add64 (add64 total (gain b y)) (gain (if same then larger a y else a) x)
      ≡ add64 (add64 total (gain a x)) (gain (if same then larger b x else b) y)
unfolding larger
swap_gains a b total x y true e = let e' = e refl in ground (arith, e')
swap_gains a b total x y false e = omega arith

==-flip : (a b : ℕ) → (a == b) ≡ (b == a)
==-flip a b = ground arith

-- A lookup and a total that go together under `merge`, as those of either kind of time do.
module _ (of : ℕ → ClientMap → ℕ) (total : ClientMap → ℕ) (value : FdInfo → ℕ)
    (of-merge : (i : FdInfo) (cs : ClientMap) (id : ℕ)
      → of id (merge i cs) ≡ (if i.client_id == id then larger (of id cs) (value i) else of id cs))
    (total-merge : (i : FdInfo) (cs : ClientMap)
      → total (merge i cs) ≡ add64 (total cs) (gain (of i.client_id cs) (value i))) where
  pub merge-Alike :
      (i : FdInfo) (cs ds : ClientMap)
      → Alike of total cs ds
      → Alike of total (merge i cs) (merge i ds)
  merge-Alike i cs ds (slots, sums) = (
    λ id. rw (of-merge i cs id, of-merge i ds id, slots id) refl,
    rw (total-merge i cs, total-merge i ds, slots i.client_id, sums) refl,
  )

  pub merge-merge-Alike :
      (i j : FdInfo) (cs : ClientMap) → Alike of total (merge i (merge j cs)) (merge j (merge i cs))
  merge-merge-Alike i j cs = (
    λ id.
        rw
          (
            of-merge i (merge j cs) id,
            of-merge j (merge i cs) id,
            of-merge i cs id,
            of-merge j cs id,
          )
          (swap_slots (of id cs) (value i) (value j) (i.client_id == id) (j.client_id == id)),
    rw
        (
          total-merge i (merge j cs),
          total-merge j (merge i cs),
          total-merge i cs,
          total-merge j cs,
          of-merge j cs i.client_id,
          of-merge i cs j.client_id,
          ==-flip i.client_id j.client_id,
        )
        (swap_gains (of i.client_id cs) (of j.client_id cs) (total cs) (value i) (value j)
          (j.client_id == i.client_id)
          (λ e. ap (λ k. of k cs) (sym ((==_iff j.client_id i.client_id).0 e)))),
  )
