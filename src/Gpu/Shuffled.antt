-- ===== src/Gpu/Shuffled.antt =====
-- The order of the descriptors, which a directory leaves open, does not matter.
use mathlib.Core.Path.{subst}
use mathlib.Core.Logic.{∥∥₁_elim}
use mathlib.Core.List.{Perm, Permᴰ}
use smooth_demon.Prelude.{
  ℕ, ◌≡◌, refl, sym, ◌∙◌, Bool, true, false, List, [], ◌∷◌, Option, none, some, ◌==◌, if◌then◌else◌,
  ◌&&◌, Bool-cases, inl, inr,
}
use smooth_demon.Prelude.Int.{ℤ}
use smooth_demon.Double.{Double}
use smooth_demon.Text.{Text, File, lines, is_digit}
use smooth_demon.Gpu.{
  FdInfo, no_info, fd_lines, ClientMap, merge, merge_fd, collect_clients, total_render, total_copy,
  GpuMonitor, ProcessSample, without_shares, account_process, sample_process_gpu,
}
use smooth_demon.Gpu.Usage.{render_of, copy_of, render_of-merge, copy_of-merge}
use smooth_demon.Gpu.Order.{
  total_render-merge, total_copy-merge, Alike, merge-Alike, merge-merge-Alike,
}

-- Whether the list has no client.
abbrev no_client : ClientMap → Bool
no_client [] = true
no_client (c ∷ cs) = false

no_client-merge : (i : FdInfo) (cs : ClientMap) → no_client (merge i cs) ≡ false
unfolding merge
no_client-merge i [] = refl
no_client-merge i (c ∷ cs) = elim (Bool-cases (c.0 == i.client_id)) [
  | inl same ↦ rw same refl
  | inr other ↦ rw other refl
]

-- Lists of clients that give the same sample.
abbrev Same : ClientMap → ClientMap → Type 0
Same cs ds =
    Alike render_of total_render cs ds
    × Alike copy_of total_copy cs ds
    × (no_client cs ≡ no_client ds)

Same-refl : (cs : ClientMap) → Same cs cs
Same-refl cs = ((λ id. refl, refl), (λ id. refl, refl), refl)

Same-trans : (cs ds es : ClientMap) → Same cs ds → Same ds es → Same cs es
Same-trans cs ds es ((r, tr), (c, tc), e) ((r', tr'), (c', tc'), e') =
    ((λ id. r id ∙ r' id, tr ∙ tr'), (λ id. c id ∙ c' id, tc ∙ tc'), e ∙ e')

merge-Same : (i : FdInfo) (cs ds : ClientMap) → Same cs ds → Same (merge i cs) (merge i ds)
merge-Same i cs ds (r, c, e) = (
  merge-Alike render_of total_render (λ i. i.render_ns) render_of-merge total_render-merge i cs ds
      r,
  merge-Alike copy_of total_copy (λ i. i.copy_ns) copy_of-merge total_copy-merge i cs ds c,
  no_client-merge i cs ∙ sym (no_client-merge i ds),
)

merge-merge-Same :
    (i j : FdInfo) (cs : ClientMap) → Same (merge i (merge j cs)) (merge j (merge i cs))
merge-merge-Same i j cs = (
  merge-merge-Alike render_of total_render (λ i. i.render_ns) render_of-merge total_render-merge i j
      cs,
  merge-merge-Alike copy_of total_copy (λ i. i.copy_ns) copy_of-merge total_copy-merge i j cs,
  no_client-merge i (merge j cs) ∙ sym (no_client-merge j (merge i cs)),
)

-- What an entry of the directory merges, none where it merges nothing.
abbrev merged : Option FdInfo → ClientMap → ClientMap
merged none cs = cs
merged (some i) cs = merge i cs

abbrev info_of : Text × File → Option FdInfo
info_of ([], file) = none
info_of (c ∷ name, none) = none
info_of (c ∷ name, some text) =
    let i = fd_lines (lines text) no_info in
    if is_digit c && (i.is_i915 && i.has_client) then some i else none

merge_fd-merged : (fd : Text × File) (cs : ClientMap) → merge_fd fd cs ≡ merged (info_of fd) cs
unfolding merge_fd
merge_fd-merged ([], file) cs = refl
merge_fd-merged (c ∷ name, none) cs = refl
merge_fd-merged (c ∷ name, some text) cs =
    let i = fd_lines (lines text) no_info in
    elim (Bool-cases (is_digit c && (i.is_i915 && i.has_client))) [
      | inl counts ↦ rw counts refl
      | inr skips ↦ rw skips refl
    ]

merged-Same :
    (i : Option FdInfo) (cs ds : ClientMap) → Same cs ds → Same (merged i cs) (merged i ds)
merged-Same none cs ds same = same
merged-Same (some i) cs ds same = merge-Same i cs ds same

merged-merged-Same :
    (i j : Option FdInfo) (cs : ClientMap) → Same (merged i (merged j cs)) (merged j (merged i cs))
merged-merged-Same none j cs = Same-refl (merged j cs)
merged-merged-Same (some i) none cs = Same-refl (merge i cs)
merged-merged-Same (some i) (some j) cs = merge-merge-Same i j cs

merge_fd-merge_fd-Same :
    (fd gd : Text × File) (cs : ClientMap)
    → Same (merge_fd fd (merge_fd gd cs)) (merge_fd gd (merge_fd fd cs))
merge_fd-merge_fd-Same fd gd cs =
    rw
      (
        merge_fd-merged fd (merge_fd gd cs),
        merge_fd-merged gd (merge_fd fd cs),
        merge_fd-merged gd cs,
        merge_fd-merged fd cs,
      )
      (merged-merged-Same (info_of fd) (info_of gd) cs)

-- The same steps from lists that give the same sample.
collect_clients-Same :
    (fds : List (Text × File)) (cs ds : ClientMap)
    → Same cs ds
    → Same (collect_clients fds cs) (collect_clients fds ds)
unfolding collect_clients
collect_clients-Same [] cs ds same = same
collect_clients-Same (fd ∷ fds) cs ds same =
    collect_clients-Same fds (merge_fd fd cs) (merge_fd fd ds)
      (rw (merge_fd-merged fd cs, merge_fd-merged fd ds) (merged-Same (info_of fd) cs ds same))

Permᴰ-Same :
    {fds gds : List (Text × File)} (cs : ClientMap)
    → Permᴰ fds gds
    → Same (collect_clients fds cs) (collect_clients gds cs)
unfolding collect_clients
Permᴰ-Same cs Permᴰ.nil = Same-refl cs
Permᴰ-Same cs (Permᴰ.cons {a} {l₁ = ls} {l₂ = ms} e p) =
    subst (λ fd. Same (collect_clients (a ∷ ls) cs) (collect_clients ms (merge_fd fd cs))) e
      (Permᴰ-Same (merge_fd a cs) p)
Permᴰ-Same cs (Permᴰ.swap {a} {b} {a'} {l = l} e f) =
    let first = collect_clients (a ∷ b ∷ l) cs in
    subst (λ fd. Same first (collect_clients l (merge_fd fd (merge_fd a' cs)))) e
      (subst (λ fd. Same first (collect_clients l (merge_fd a (merge_fd fd cs)))) f
        (collect_clients-Same l _ _ (merge_fd-merge_fd-Same b a cs)))
Permᴰ-Same cs (Permᴰ.trans {l₂ = ms} p q) =
    Same-trans _ (collect_clients ms cs) _ (Permᴰ-Same cs p) (Permᴰ-Same cs q)

Perm-Same :
    (fds gds : List (Text × File))
    → Perm fds gds
    → Same (collect_clients fds []) (collect_clients gds [])
Perm-Same fds gds p = ∥∥₁_elim p (hlevel) (λ d. Permᴰ-Same [] d)

module _ {F : Type 0} ⦃d : Double F⦄ where
  abbrev sampled : ℤ → ℕ → GpuMonitor F → ClientMap → ProcessSample F
  sampled pid now m cs = elim cs [
    | [] ↦ without_shares false m
    | c ∷ cs ↦ account_process pid (total_render (c ∷ cs)) (total_copy (c ∷ cs)) now m
  ]

  sampled-Same :
      (pid : ℤ) (now : ℕ) (m : GpuMonitor F) (cs ds : ClientMap)
      → Same cs ds
      → sampled pid now m cs ≡ sampled pid now m ds
  sampled-Same pid now m [] [] same = refl
  sampled-Same pid now m [] (d ∷ ds) (r, c, e) = cc
  sampled-Same pid now m (c ∷ cs) [] (r, k, e) = cc
  sampled-Same pid now m (c ∷ cs) (d ∷ ds) ((r, renders), (k, copies), e) =
      rw (renders, copies) refl

  -- The order in which the directory lists the descriptors of the process does not matter: the same
  -- ones in any other order give the same result, the same shares and the same monitor.
  pub sample_process_gpu-order :
      (pid : ℤ) (fds gds : List (Text × File)) (now : ℕ) (m : GpuMonitor F)
      → Perm fds gds
      → sample_process_gpu pid (some fds) now m ≡ sample_process_gpu pid (some gds) now m
  unfolding sample_process_gpu
  sample_process_gpu-order pid fds gds now m p =
      sampled-Same pid now m (collect_clients fds []) (collect_clients gds []) (Perm-Same fds gds p)
