-- ===== src/Memory/Usage.antt =====
-- What a sample leaves in the metrics of the memory.
use smooth_demon.Prelude.{
  ◌+◌, ◌<◌, ◌≡◌, ◌≢◌, true, false, none, some, arith, Bool-cases, inl, inr, ◌==◌,
}
use smooth_demon.Double.{Double}
use smooth_demon.Text.{File, lines}
use smooth_demon.Memory.{
  MemoryMetrics, Reading, finish, read_lines, no_reading, sample, get_used_ram_kib,
  get_used_swap_kib, percent_of,
}

module _ (F : Type 0) ⦃d : Double F⦄ where
  -- The amounts fit together, and the percentages are those of the used amounts.
  unfoldable pub IsConsistent : MemoryMetrics F → Type 0
  IsConsistent m =
      (get_used_ram_kib m + m.available_kib ≡ m.total_kib)
      × (0 < m.total_kib)
      × (m.ram_used_percent ≡ percent_of (get_used_ram_kib m) m.total_kib)
      × (m.swap_total_kib ≢ 0
          → (get_used_swap_kib m + m.swap_free_kib ≡ m.swap_total_kib)
            × (m.swap_used_percent ≡ percent_of (get_used_swap_kib m) m.swap_total_kib))
      × (m.swap_total_kib ≡ 0 → (get_used_swap_kib m ≡ 0) × (m.swap_used_percent ≡ d.of_ℕ 0))

  finish-IsConsistent : (r : Reading) → 0 < r.total → IsConsistent (finish r)
  unfolding IsConsistent finish get_used_ram_kib get_used_swap_kib
  finish-IsConsistent r h = ground arith

  -- Whatever /proc/meminfo holds, a sample that succeeds leaves amounts that add up to the totals,
  -- with the percentages of what the accessors report as used; one that fails, because the file
  -- cannot be opened or gives no total, keeps the old metrics.
  pub sample-IsConsistent :
      (file : File) (m : MemoryMetrics F)
      → ((sample file m).0 ≡ true → IsConsistent (sample file m).1)
        × ((sample file m).0 ≡ false → (sample file m).1 ≡ m)
  unfolding sample
  sample-IsConsistent none m = ground arith
  sample-IsConsistent (some text) m =
      let r = read_lines (lines text) no_reading in
      elim (Bool-cases (r.total == 0)) [
        | inl none_given ↦ ground arith
        | inr given ↦ ground (arith, finish-IsConsistent r (ground arith))
      ]
