-- ===== src/Resource/Affinity/Tests.antt =====
-- Setting and reading an affinity at a concrete request.
use smooth_demon.Prelude.{ℕ, ◌≡◌, ◌&&◌, refl, true, List, [], ◌∷◌, arith, ltb}
use smooth_demon.Prelude.Int.{ℤ, pos, negsuc}
use smooth_demon.Resource.Affinity.{
  cpu_count, cpu_set, add_cores, list_cores, set_thread_affinity, get_thread_affinity,
}
use smooth_demon.Resource.Affinity.Masks.{listed, requested, set_get_affinity}

-- Cores 1 and 3 of four, with one that does not exist and one below 0.
abbrev wanted_cores : List ℤ
wanted_cores = pos 3 ∷ negsuc 0 ∷ pos 9 ∷ pos 1 ∷ []

reads_back :
    get_thread_affinity (pos 4) (set_thread_affinity (pos 4) (λ s. true) wanted_cores).1
    ≡ 1 ∷ 3 ∷ []
unfolding get_thread_affinity set_thread_affinity add_cores list_cores cpu_set cpu_count
reads_back = refl

set_get_affinity_example :
    let (done, set) = set_thread_affinity (pos 4) (λ s. true) wanted_cores in
    (done ≡ true)
    × ((c : ℕ)
        → listed c (get_thread_affinity (pos 4) set)
          ≡ (requested c wanted_cores && ltb c (cpu_count (pos 4))))
unfolding cpu_count requested
set_get_affinity_example =
    set_get_affinity (pos 4) (λ s. true) wanted_cores 1 (omega arith) refl (omega arith) (λ s. refl)
