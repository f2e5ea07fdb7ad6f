-- ===== src/Cpu/Sampling.antt =====
-- `CpuMonitor::sample`: its invariant, its failures, its baseline.
use smooth_demon.Prelude.{
  ℕ, suc, ◌≡◌, ◌∙◌, ap, refl, true, false, List, [], ◌∷◌, map, none, some, arith, All, length,
  length-set, length-replicate, length-map, ltb, Bool-cases, Option-cases, inl, inr,
}
use smooth_demon.Double.{Double, IsOrdered}
use smooth_demon.Text.{Text, File, lines}
use smooth_demon.Cpu.{
  CpuSample, CpuMetrics, CpuMonitor, Scan, scan_core, scan_line, scan_lines, cpu_line, core_metrics,
  store_scan, start_scan, sample, no_metrics, no_sample, calculate_delta, digits_from,
}
use smooth_demon.Cpu.Delta.{
  InRange, no_metrics-InRange, calculate_metrics-InRange, calculate_delta-IsWord,
}
use smooth_demon.Double.Percent.{IsArithmetic}

scan_core-length : (r : ℕ × Text) (s : Scan) → length (scan_core r s).core_curr ≡ length s.core_curr
unfolding scan_core
scan_core-length (idx, q) s = elim (Bool-cases (ltb idx (length s.core_curr))) [
  | inl inside ↦ rw inside (length-set s.core_curr idx _)
  | inr outside ↦ rw outside
]

scan_line-length : (p : Text) (s : Scan) → length (scan_line p s).core_curr ≡ length s.core_curr
unfolding scan_line
scan_line-length [] s = refl
scan_line-length (c ∷ p) s = ground (arith, scan_core-length (digits_from 0 (c ∷ p)) s)

pub scan_lines-length :
    (ls : List Text) (s : Scan) → length (scan_lines ls s).core_curr ≡ length s.core_curr
unfolding scan_lines
scan_lines-length [] s = refl
scan_lines-length (l ∷ ls) s = elim (Option-cases (cpu_line l)) [
  | inl stop ↦ rw (stop, length)
  | inr (p, go) ↦ rw (go, length) (scan_lines-length ls (scan_line p s) ∙ scan_line-length p s)
]

module _ {F : Type 0} ⦃d : Double F⦄ where
  -- One sample and one entry of metrics for each of the `cores` cores, every percentage in range.
  pub record IsValid (laws : IsOrdered F) (cores : ℕ) (m : CpuMonitor F) : Type 0 where
    pub samples : length m.prev_cores ≡ cores
    pub entries : length m.curr_cores ≡ cores
    pub aggregate_in : InRange laws m.curr_aggregate
    pub cores_in : All (InRange laws) m.curr_cores

  pub start_scan-length : (m : CpuMonitor F) → length (start_scan m).core_curr ≡ length m.prev_cores
  unfolding start_scan
  start_scan-length m = length-replicate (length m.prev_cores) no_sample

  module _ (laws : IsOrdered F) (rules : IsArithmetic F laws) where
    core_metrics-valid :
        (prev curr : List CpuSample)
        → length prev ≡ length curr
        → (length (core_metrics {F = F} prev curr) ≡ length prev)
          × All (InRange {F = F} laws) (core_metrics prev curr)
    unfolding core_metrics
    core_metrics-valid [] [] h = (refl, tt)
    core_metrics-valid [] (c ∷ curr) h = absurd (omega arith)
    core_metrics-valid (p ∷ prev) [] h = absurd (omega arith)
    core_metrics-valid (p ∷ prev) (c ∷ curr) h =
        let (len, all) = core_metrics-valid prev curr (omega arith) in
        (
          ap suc len,
          (
            calculate_metrics-InRange laws rules (calculate_delta p c) (calculate_delta-IsWord p c),
            all,
          ),
        )

    zeroed-InRange :
        (ms : List (CpuMetrics F)) → All (InRange {F = F} laws) (map (λ _. no_metrics) ms)
    zeroed-InRange [] = tt
    zeroed-InRange (m ∷ ms) = (no_metrics-InRange laws rules, zeroed-InRange ms)

    store_scan-IsValid :
        (cores : ℕ) (m : CpuMonitor F) (s : Scan)
        → IsValid laws cores m
        → length s.core_curr ≡ cores
        → IsValid laws cores (store_scan m s).1
    unfolding store_scan
    store_scan-IsValid cores m s v h = elim (Bool-cases s.aggregate_seen) [
      | inr missing ↦ rw missing v
      | inl seen ↦ elim (Bool-cases m.first_sample) [
        | inl first ↦
            rw (seen, first)
              (record {
                samples = h;
                entries = length-map m.curr_cores (λ _. no_metrics) ∙ v.entries;
                aggregate_in = no_metrics-InRange laws rules;
                cores_in = zeroed-InRange m.curr_cores;
              })
        | inr later ↦
            let (len, all) =
              core_metrics-valid m.prev_cores s.core_curr (omega (arith, v.samples, h)) in
            rw (seen, later)
              (record {
                samples = h;
                entries = len ∙ v.samples;
                aggregate_in = calculate_metrics-InRange laws rules _ (calculate_delta-IsWord _ _);
                cores_in = all;
              })
      ]
    ]

    -- `sample` keeps one entry for each core and every percentage a number, not NaN, from 0 to 100,
    -- whatever the file holds, also if it lacks cores, names cores out of range, or its counters go back.
    pub sample-IsValid :
        (cores : ℕ) (m : CpuMonitor F) (file : File)
        → IsValid laws cores m
        → IsValid laws cores (sample file m).1
    unfolding sample
    sample-IsValid cores m none v = v
    sample-IsValid cores m (some text) v =
        let scan = scan_lines (lines text) (start_scan m) in
        store_scan-IsValid cores m scan v
          (scan_lines-length (lines text) (start_scan m) ∙ start_scan-length m ∙ v.samples)

  -- A sample that fails, because the file cannot be read or has no aggregate line, leaves the monitor
  -- as it was; the first one that succeeds reports zeros; and it succeeds exactly when an aggregate
  -- line is found among the leading "cpu" lines.
  pub sample_outcomes :
      (m : CpuMonitor F) (file : File)
      → let (done, m') = sample file m in
        (done ≡ false → m' ≡ m)
        × (done ≡ true → (m'.first_sample ≡ false))
        × (done ≡ true → m.first_sample ≡ true → m'.curr_aggregate ≡ no_metrics)
  unfolding sample store_scan
  sample_outcomes m none = ground arith
  sample_outcomes m (some text) = ground arith
