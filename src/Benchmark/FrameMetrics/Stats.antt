-- ===== src/Benchmark/FrameMetrics/Stats.antt =====
-- `ComputeStats`: the statistics of the window.
use mathlib.Core.List.{Perm}
use smooth_demon.Prelude.{
  ℕ, ◌+◌, ◌^◌, ◌≤◌, ◌<◌, ◌≡◌, refl, true, false, List, [], ◌∷◌, arith, ◌==◌, length-collect, All,
  All-get_or, length, min,
}
use smooth_demon.Double.{Double, IsOrdered, ◌≼◌, lt_asymm, ≼_trans}
use smooth_demon.Benchmark.RingBuffer
use smooth_demon.Benchmark.FrameMetrics.{
  sum_of, FrameMetrics, FrameStats, Pass, pass_step, pass, rank, percentile, stats_of,
  compute_stats, samples_of,
}
use smooth_demon.Benchmark.FrameMetrics.Sort.{All-Perm, length-Perm}

module _ {F : Type 0} ⦃d : Double F⦄ where
  module _ (laws : IsOrdered F) where
    open laws use {is_number, lt_irrefl}

    abbrev pub IsNumber : F → Type 0
    IsNumber x = is_number x ≡ true

    step_bounds :
        (mean threshold : F) (s : Pass F) (v : F)
        → IsNumber s.mn
        → IsNumber s.mx
        → IsNumber v
        → let r = pass_step mean threshold s v in
          ((r.mn ≼ s.mn) × (r.mn ≼ v))
          × ((s.mx ≼ r.mx) × (v ≼ r.mx))
          × (IsNumber r.mn × IsNumber r.mx)
    unfolding pass_step
    step_bounds mean threshold s v n m nv = ground (
      arith,
      lt_irrefl v,
      lt_irrefl s.mn,
      lt_irrefl s.mx,
      lt_asymm laws v s.mn,
      lt_asymm laws s.mx v,
    )

    pass_bounds :
        (mean threshold : F) (vs : List F) (s : Pass F)
        → IsNumber s.mn
        → IsNumber s.mx
        → All IsNumber vs
        → let r = pass mean threshold s vs in
          (r.mn ≼ s.mn)
          × (s.mx ≼ r.mx)
          × All (λ v. (r.mn ≼ v) × (v ≼ r.mx)) vs
          × IsNumber r.mn
          × IsNumber r.mx
    unfolding pass
    pass_bounds mean threshold [] s n m ns = (lt_irrefl s.mn, lt_irrefl s.mx, tt, n, m)
    pass_bounds mean threshold (v ∷ vs) s n m (nv, ns) =
        let s' = pass_step mean threshold s v in
        let r = pass mean threshold s' vs in
        let (low, high, numbers) = step_bounds mean threshold s v n m nv in
        let (lows, highs, all, rn, rm) = pass_bounds mean threshold vs s' numbers.0 numbers.1 ns in
        (
          ≼_trans laws r.mn s'.mn s.mn numbers.0 lows low.0,
          ≼_trans laws s.mx s'.mx r.mx numbers.1 high.0 highs,
          (
            (
              ≼_trans laws r.mn s'.mn v numbers.0 lows low.1,
              ≼_trans laws v s'.mx r.mx numbers.1 high.1 highs,
            ),
            all,
          ),
          rn,
          rm,
        )

    pass_stutters :
        (mean threshold : F) (vs : List F) (s : Pass F)
        → s.stutters + length vs < 2 ^ 64
        → (pass mean threshold s vs).stutters ≤ s.stutters + length vs
    unfolding pass pass_step
    pass_stutters mean threshold [] s h = omega arith
    pass_stutters mean threshold (v ∷ vs) s h =
        ground (arith, pass_stutters mean threshold vs (pass_step mean threshold s v))

  rank_lt : (p : F) (n : ℕ) → 0 < n → rank p n < n
  unfolding rank
  rank_lt p n h = ground arith

  -- What `std::sort` promises: the same elements, where none is NaN.
  abbrev pub Rearranges : IsOrdered F → (List F → List F) → Type 0
  Rearranges laws sort = (xs : List F) → All (IsNumber laws) xs → Perm (sort xs) xs

  All-percentile :
      (P : F → Type 0) (sorted xs : List F) (p : F)
      → ((x : F) → IsProp (P x))
      → Perm sorted xs
      → 0 < length xs
      → All P xs
      → P (percentile sorted (length xs) p)
  unfolding percentile
  All-percentile P sorted xs p prop perm h ps =
      let len : length sorted ≡ length xs = length-Perm perm in
      let lt : rank p (length xs) < length sorted = rw len (rank_lt p (length xs) h) in
      All-get_or P sorted (rank p (length xs)) (d.of_ℕ 0) (All-Perm P prop perm ps) lt

  -- `r` holds the extremes of the samples, the percentiles lie between them, and the counts are right.
  pub record IsSummary (xs : List F) (r : FrameStats F) : Type 0 where
    pub extremes : All (λ v. (r.min_frametime_ms ≼ v) × (v ≼ r.max_frametime_ms)) xs
    pub p99_within :
        (r.min_frametime_ms ≼ r.p99_frametime_ms) × (r.p99_frametime_ms ≼ r.max_frametime_ms)
    pub p999_within :
        (r.min_frametime_ms ≼ r.p999_frametime_ms) × (r.p999_frametime_ms ≼ r.max_frametime_ms)
    pub total : r.total_frames ≡ length xs
    pub stutters_le : r.stutter_count ≤ length xs

  stats_of-IsSummary :
      (laws : IsOrdered F) (sort : List F → List F) (xs : List F)
      → Rearranges laws sort
      → 0 < length xs
      → length xs < 2 ^ 64
      → All (IsNumber laws) xs
      → IsSummary xs (stats_of sort xs (length xs))
  unfolding stats_of
  stats_of-IsSummary laws sort [] sorts h l ns = absurd (omega arith)
  stats_of-IsSummary laws sort (x ∷ xs) sorts h l ns =
      let all = x ∷ xs in
      let mean = d.div (sum_of (d.of_ℕ 0) all) (d.of_ℕ (length all)) in
      let threshold = d.mul (d.of_ℕ 2) mean in
      let start : Pass F = record { mn = x; mx = x; sq = d.of_ℕ 0; stutters = 0 } in
      let r = pass mean threshold start all in
      let (low, high, within, _, _) = pass_bounds laws mean threshold all start ns.0 ns.0 ns in
      let between : (p : F)
          → let v = percentile (sort all) (length all) p in (r.mn ≼ v) × (v ≼ r.mx) =
        λ p.
          All-percentile (λ v. (r.mn ≼ v) × (v ≼ r.mx)) (sort all) all p (λ x. hlevel)
            (sorts all ns) h within in
      record {
        extremes = within;
        p99_within = between (d.literal 99 2);
        p999_within = between (d.literal 999 3);
        total = refl;
        stutters_le = omega (arith, pass_stutters laws mean threshold all start);
      }

  length-samples_of :
      (m : FrameMetrics F) → length (samples_of m) ≡ min m.frametimes_ms.count m.window
  unfolding samples_of RingBuffer.size
  length-samples_of m = length-collect _ _ (min m.frametimes_ms.count m.window)

  compute_stats-samples :
      (sort : List F → List F) (m : FrameMetrics F)
      → 0 < m.frametimes_ms.count
      → compute_stats sort m ≡ stats_of sort (samples_of m) (min m.frametimes_ms.count m.window)
  unfolding compute_stats RingBuffer.size
  compute_stats-samples sort m h =
      let held : (m.frametimes_ms.count == 0) ≡ false = ground arith in rw held

  -- If sorting gives the same samples in some order, the buffer holds samples and none in the window
  -- is NaN, `ComputeStats` gives as extremes
  -- values that no sample of the window passes, percentiles between the extremes, the number of the
  -- samples in the window, and no more stutters than samples.
  pub compute_stats-IsSummary :
      (laws : IsOrdered F) (sort : List F → List F) (m : FrameMetrics F)
      → Rearranges laws sort
      → 0 < m.frametimes_ms.count
      → 0 < m.window
      → m.window < 2 ^ 64
      → All (IsNumber laws) (samples_of m)
      → IsSummary (samples_of m) (compute_stats sort m)
  compute_stats-IsSummary laws sort m sorts some_held open_window small ns =
      let len : length (samples_of m) ≡ min m.frametimes_ms.count m.window = length-samples_of m in
      rw (compute_stats-samples sort m some_held, ← len)
        (stats_of-IsSummary laws sort (samples_of m) sorts (omega arith) (omega arith) ns)
