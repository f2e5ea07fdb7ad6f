-- ===== src/Cpu/Repeat.antt =====
-- A second sample of an unchanged /proc/stat.
use mathlib.Core.Path.{ap₂}
use smooth_demon.Prelude.{
  ◌≡◌, ◌∙◌, ap, refl, true, false, List, [], ◌∷◌, map, none, some, arith, length, Bool-cases, inl,
  inr,
}
use smooth_demon.Double.{Double}
use smooth_demon.Text.{File, lines}
use smooth_demon.Cpu.{
  CpuSample, CpuMonitor, Scan, scan_lines, core_metrics, store_scan, start_scan, sample, no_metrics,
  calculate_metrics, calculate_delta, get_total_ticks,
}
use smooth_demon.Cpu.Sampling.{scan_lines-length, start_scan-length}

no_change : (c : CpuSample) → get_total_ticks (calculate_delta c c) ≡ 0
unfolding get_total_ticks calculate_delta
no_change c = omega arith

module _ {F : Type 0} ⦃d : Double F⦄ where
  calculate_metrics_same :
      (c : CpuSample) → calculate_metrics {F = F} (calculate_delta c c) ≡ no_metrics
  unfolding calculate_metrics
  calculate_metrics_same c = rw (no_change c)

  core_metrics_same :
      (cores : List CpuSample) → core_metrics cores cores ≡ map (λ _. no_metrics {F = F}) cores
  unfolding core_metrics
  core_metrics_same [] = refl
  core_metrics_same (c ∷ cs) = ap₂ ◌∷◌ (calculate_metrics_same c) (core_metrics_same cs)

  abbrev pub AllIdle : CpuMonitor F → Type 0
  AllIdle m = (m.curr_aggregate ≡ no_metrics) × (m.curr_cores ≡ map (λ _. no_metrics) m.prev_cores)

  store_scan_seen :
      (m : CpuMonitor F) (s : Scan) → (store_scan m s).0 ≡ true → s.aggregate_seen ≡ true
  unfolding store_scan
  store_scan_seen m s done = elim (Bool-cases s.aggregate_seen) [
    | inl seen ↦ seen
    | inr missing ↦ cc (rw missing at done)
  ]

  start_scan_same :
      (m n : CpuMonitor F) → length m.prev_cores ≡ length n.prev_cores → start_scan m ≡ start_scan n
  unfolding start_scan
  start_scan_same m n e = rw e

  -- What a successful scan leaves behind, and what the same scan gives after it.
  store_scan_keeps :
      (m : CpuMonitor F) (s : Scan)
      → s.aggregate_seen ≡ true
      → let m' = (store_scan m s).1 in
        ((store_scan m s).0 ≡ true)
        × (m'.first_sample ≡ false)
        × (m'.prev_aggregate ≡ s.aggregate_curr)
        × (m'.prev_cores ≡ s.core_curr)
  unfolding store_scan
  store_scan_keeps m s seen = elim (Bool-cases m.first_sample) [
    | inl first ↦ rw (seen, first) (refl, refl, refl, refl)
    | inr later ↦ rw (seen, later) (refl, refl, refl, refl)
  ]

  store_scan_again :
      (m : CpuMonitor F) (s : Scan)
      → s.aggregate_seen ≡ true
      → m.first_sample ≡ false
      → m.prev_aggregate ≡ s.aggregate_curr
      → m.prev_cores ≡ s.core_curr
      → ((store_scan m s).0 ≡ true) × AllIdle (store_scan m s).1
  unfolding store_scan
  store_scan_again m s seen later same_aggregate same_cores =
      rw (seen, later, same_aggregate, same_cores)
        (refl, (calculate_metrics_same s.aggregate_curr, core_metrics_same s.core_curr))

  -- After a successful sample a second one of the same file succeeds, and reports 0 for the aggregate
  -- and for every core.
  pub sample_twice :
      (m : CpuMonitor F) (file : File)
      → (sample file m).0 ≡ true
      → let (again, m'') = sample file (sample file m).1 in (again ≡ true) × AllIdle m''
  unfolding sample
  sample_twice m none done = cc
  sample_twice m (some text) done =
      let s = scan_lines (lines text) (start_scan m) in
      let m' = (store_scan m s).1 in
      let seen : s.aggregate_seen ≡ true = store_scan_seen m s done in
      let (_, later, aggregate, cores) = store_scan_keeps m s seen in
      let same : start_scan m' ≡ start_scan m =
        start_scan_same m' m
          (ap length cores ∙ scan_lines-length (lines text) (start_scan m) ∙ start_scan-length m) in
      rw same (store_scan_again m' s seen later aggregate cores)
