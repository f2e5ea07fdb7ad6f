-- ===== src/Resource/Affinity/Masks.antt =====
-- Setting the affinity and reading it back.
use smooth_demon.Prelude.{
  ℕ, zero, suc, ◌+◌, ◌≤◌, ◌<◌, ◌≡◌, Bool, true, false, not, ◌&&◌, ◌||◌, List, [], ◌∷◌, arith, ltb,
  ◌==◌, if◌then◌else◌, Bool-cases, inl, inr, ◌∙◌,
}
use smooth_demon.Prelude.Int.{ℤ, pos, negsuc}
use smooth_demon.Resource.Affinity.{
  CpuSet, cpu_zero, cpu_set, cpu_set_size, cpu_count, add_cores, set_thread_affinity, list_cores,
  get_thread_affinity,
}

-- Core `c` stands in the list.
unfoldable pub listed : ℕ → List ℕ → Bool
listed c [] = false
listed c (x ∷ xs) = c == x || listed c xs

-- Core `c` is asked for.
unfoldable pub requested : ℕ → List ℤ → Bool
requested c [] = false
requested c (negsuc n ∷ cores) = requested c cores
requested c (pos core ∷ cores) = c == core || requested c cores

-- The loop sets exactly the requested cores below the limit, beside those set before.
add_cores-set :
    (ncpu : ℕ) (cores : List ℤ) (set : CpuSet) (applied c : ℕ)
    → ncpu ≤ cpu_set_size
    → (add_cores ncpu cores set applied).0 c ≡ (set c || (requested c cores && ltb c ncpu))
unfolding add_cores requested
add_cores-set ncpu [] set applied c h = ground arith
add_cores-set ncpu (negsuc n ∷ cores) set applied c h = add_cores-set ncpu cores set applied c h
add_cores-set ncpu (pos core ∷ cores) set applied c h =
    add_cores-set ncpu cores _ _ c h ∙ ground arith

add_cores-le :
    (ncpu : ℕ) (cores : List ℤ) (set : CpuSet) (applied : ℕ)
    → applied ≤ (add_cores ncpu cores set applied).1
unfolding add_cores
add_cores-le ncpu [] set applied = omega arith
add_cores-le ncpu (negsuc n ∷ cores) set applied = add_cores-le ncpu cores set applied
add_cores-le ncpu (pos core ∷ cores) set applied = ground (
  arith,
  add_cores-le ncpu cores (if ltb core ncpu then cpu_set core set else set)
      (if ltb core ncpu then applied + 1 else applied),
)

add_cores-applied :
    (ncpu : ℕ) (cores : List ℤ) (set : CpuSet) (applied c : ℕ)
    → requested c cores ≡ true
    → c < ncpu
    → 0 < (add_cores ncpu cores set applied).1
unfolding add_cores requested
add_cores-applied ncpu [] set applied c r lt = ground arith
add_cores-applied ncpu (negsuc n ∷ cores) set applied c r lt =
    add_cores-applied ncpu cores set applied c r lt
add_cores-applied ncpu (pos core ∷ cores) set applied c r lt = elim (Bool-cases (c == core)) [
  | inl e ↦ ground (
    arith,
    add_cores-le ncpu cores (if ltb core ncpu then cpu_set core set else set)
        (if ltb core ncpu then applied + 1 else applied),
  )
  | inr e ↦ add_cores-applied ncpu cores _ _ c (ground arith) lt
]

list_cores-listed :
    (set : CpuSet) (left start c : ℕ)
    → listed c (list_cores set left start) ≡ (set c && (ltb c (start + left) && not (ltb c start)))
unfolding list_cores listed
list_cores-listed set zero start c = ground arith
list_cores-listed set (suc left) start c = ground (arith, list_cores-listed set left (start + 1) c)

-- On a system of at most 1024 cores: if a core that exists is asked for and the kernel takes the
-- set, `SetThreadAffinity` succeeds, and `GetThreadAffinity` then lists exactly the cores that were
-- asked for and exist.
pub set_get_affinity :
    (ncores : ℤ) (accepts : CpuSet → Bool) (cores : List ℤ) (wanted : ℕ)
    → cpu_count ncores ≤ cpu_set_size
    → requested wanted cores ≡ true
    → wanted < cpu_count ncores
    → ((set : CpuSet) → accepts set ≡ true)
    → let (done, set) = set_thread_affinity ncores accepts cores in
      (done ≡ true)
      × ((c : ℕ)
          → listed c (get_thread_affinity ncores set)
            ≡ (requested c cores && ltb c (cpu_count ncores)))
unfolding set_thread_affinity get_thread_affinity
set_get_affinity ncores accepts cores wanted few asked exists taken =
    let ncpu = cpu_count ncores in
    let set = (add_cores ncpu cores cpu_zero 0).0 in
    ground (
      arith,
      taken set,
      add_cores-applied ncpu cores cpu_zero 0 wanted asked exists,
      add_cores-set ncpu cores cpu_zero 0,
      list_cores-listed set ncpu 0,
    )
