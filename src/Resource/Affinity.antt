-- ===== src/Resource/Affinity.antt =====
-- src/resource/CpuAffinity.cpp. `ncores` is what `sysconf(_SC_NPROCESSORS_ONLN)` returns, `accepts`
-- whether `sched_setaffinity` takes a set, and a mask what `sched_getaffinity` gives.
pub mod Masks
mod Tests
use smooth_demon.Prelude.{
  ℕ, zero, suc, ◌+◌, Bool, true, false, ◌&&◌, ◌||◌, List, [], ◌∷◌, Option, none, some, ltb, ◌==◌,
  if◌then◌else◌,
}
use smooth_demon.Prelude.Int.{ℤ, pos, negsuc, ltb_ℤ, leb_ℤ}

-- `cpu_set_t`, as its test CPU_ISSET.
abbrev pub CpuSet : Type 0
CpuSet = ℕ → Bool

abbrev pub cpu_zero : CpuSet
cpu_zero c = false

-- CPU_SETSIZE
abbrev pub cpu_set_size : ℕ
cpu_set_size = 1024

-- CPU_SET does nothing for a core that the set has no room for.
pub cpu_set : ℕ → CpuSet → CpuSet
cpu_set core set c = (c == core && ltb core cpu_set_size) || set c

-- `(ncores > 0) ? static_cast<int>(ncores) : 1`, the number of cores in use.
unfoldable pub cpu_count : ℤ → ℕ
cpu_count (pos n) = if n == 0 then 1 else n
cpu_count (negsuc n) = 1

-- The loop over the requested cores, with the set and the number applied so far.
pub add_cores : ℕ → List ℤ → CpuSet → ℕ → CpuSet × ℕ
unfolding cpu_set
add_cores ncpu [] set applied = (set, applied)
add_cores ncpu (negsuc n ∷ cores) set applied = add_cores ncpu cores set applied
add_cores ncpu (pos core ∷ cores) set applied =
    let taken = ltb core ncpu in
    add_cores ncpu cores (if taken then cpu_set core set else set)
      (if taken then applied + 1 else applied)

-- The result, and the set that the kernel was asked to use, if it was asked and took it.
pub set_thread_affinity : ℤ → (CpuSet → Bool) → List ℤ → Bool × Option CpuSet
unfolding add_cores cpu_count
set_thread_affinity ncores accepts cores =
    let (set, applied) = add_cores (cpu_count ncores) cores cpu_zero 0 in
    if applied == 0 then (false, none) else if accepts set then (true, some set) else (false, none)

-- The rounds that are left of the loop from core `c` on.
pub list_cores : CpuSet → ℕ → ℕ → List ℕ
list_cores set zero c = []
list_cores set (suc left) c =
    let rest = list_cores set left (c + 1) in if set c then c ∷ rest else rest

pub get_thread_affinity : ℤ → Option CpuSet → List ℕ
unfolding list_cores cpu_count
get_thread_affinity ncores none = []
get_thread_affinity ncores (some set) = list_cores set (cpu_count ncores) 0
