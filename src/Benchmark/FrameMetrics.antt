-- ===== src/Benchmark/FrameMetrics.antt =====
-- src/benchmark/FrameMetrics.cpp and its header: frame times from timestamps, and their statistics.
pub mod Record
pub mod Sort
pub mod Stats
mod Tests
use smooth_demon.Prelude.{
  ℕ, zero, suc, ◌+◌, ◌-◌, Bool, true, false, List, [], ◌∷◌, ◌++◌, ltb, leb, ◌==◌, if◌then◌else◌,
  min, get_or, collect,
}
use smooth_demon.Prelude.Words.{sub64, add64}
use smooth_demon.Double.{Double}
use smooth_demon.Benchmark.RingBuffer
use smooth_demon.Benchmark.RingBuffer.{RingBuffer}

abbrev pub max_window : ℕ
max_window = 4096

pub record FrameStats (F : Type 0) : Type 0 where
  pub avg_fps : F
  pub avg_frametime_ms : F
  pub min_frametime_ms : F
  pub max_frametime_ms : F
  pub p99_frametime_ms : F
  pub p999_frametime_ms : F
  pub one_percent_low_fps : F
  pub point_one_percent_low_fps : F
  pub frametime_std_dev_ms : F
  pub total_frames : ℕ
  pub stutter_count : ℕ

pub record FrameMetrics (F : Type 0) : Type 0 where
  pub frametimes_ms : RingBuffer F
  pub window : ℕ
  pub last_timestamp_ns : ℕ
  pub have_last : Bool
  pub target_fps : F
  pub max_frametime_ms : F

-- The variables of the loop that finds the extremes, the squares and the stutters.
pub record Pass (F : Type 0) : Type 0 where
  pub mn : F
  pub mx : F
  pub sq : F
  pub stutters : ℕ

module _ {F : Type 0} ⦃d : Double F⦄ where
  open d use {of_ℕ, literal, add, sub, mul, div, sqrt, ceil, to_ℕ, lt}

  pub frame_metrics : ℕ → FrameMetrics F
  frame_metrics window_size =
      let window = min window_size max_window in
      record {
        frametimes_ms = RingBuffer.ring_buffer max_window (of_ℕ 0);
        window = if window == 0 then 1 else window;
        last_timestamp_ns = 0;
        have_last = false;
        target_fps = of_ℕ 60;
        max_frametime_ms = of_ℕ 500;
      }

  pub set_target_fps : FrameMetrics F → F → FrameMetrics F
  set_target_fps m fps = record m { target_fps = fps }

  pub set_max_frametime_ms : FrameMetrics F → F → FrameMetrics F
  set_max_frametime_ms m ms = record m { max_frametime_ms = ms }

  pub reset : FrameMetrics F → FrameMetrics F
  reset m = record m {
    frametimes_ms = RingBuffer.clear max_window (of_ℕ 0) m.frametimes_ms;
    last_timestamp_ns = 0;
    have_last = false;
  }

  -- The frame time of a positive difference of timestamps, cut off at `limit`.
  pub frame_time : F → ℕ → F
  frame_time limit delta_ns =
      let delta_ms = div (of_ℕ delta_ns) (of_ℕ 1_000_000) in
      if lt limit delta_ms then limit else delta_ms

  pub record_timestamp : FrameMetrics F → ℕ → FrameMetrics F
  unfolding frame_time
  record_timestamp m timestamp_ns =
      if m.have_last
      then if leb timestamp_ns m.last_timestamp_ns then m else record m {
        last_timestamp_ns = timestamp_ns;
        frametimes_ms =
            RingBuffer.push max_window (of_ℕ 0) m.frametimes_ms
              (frame_time m.max_frametime_ms (sub64 timestamp_ns m.last_timestamp_ns));
      }
      else record m { last_timestamp_ns = timestamp_ns; have_last = true }

  pub sum_of : F → List F → F
  sum_of sum [] = sum
  sum_of sum (v ∷ vs) = sum_of (add sum v) vs

  pub pass_step : F → F → Pass F → F → Pass F
  pass_step mean threshold s v =
      let off = sub v mean in
      record {
        mn = if lt v s.mn then v else s.mn;
        mx = if lt s.mx v then v else s.mx;
        sq = add s.sq (mul off off);
        stutters = if lt threshold v then add64 s.stutters 1 else s.stutters;
      }

  pub pass : F → F → Pass F → List F → Pass F
  unfolding pass_step
  pass mean threshold s [] = s
  pass mean threshold s (v ∷ vs) = pass mean threshold (pass_step mean threshold s v) vs

  -- The index that `percentile(p)` reads, among `n` samples.
  pub rank : F → ℕ → ℕ
  rank p n = let idx = to_ℕ (ceil (mul p (of_ℕ n))) in if leb n idx then n - 1 else idx

  pub percentile : List F → ℕ → F → F
  unfolding rank
  percentile sorted n p = get_or sorted (rank p n) (of_ℕ 0)

  -- The samples of the window: the loop `for (i = start; i < active; ++i)`.
  pub samples_of : FrameMetrics F → List F
  samples_of m =
      let active = RingBuffer.size max_window (of_ℕ 0) m.frametimes_ms in
      let n = min active m.window in
      collect (RingBuffer.at max_window (of_ℕ 0) m.frametimes_ms) (active - n) n

  pub no_stats : FrameStats F
  no_stats = record {
    avg_fps = of_ℕ 0;
    avg_frametime_ms = of_ℕ 0;
    min_frametime_ms = of_ℕ 0;
    max_frametime_ms = of_ℕ 0;
    p99_frametime_ms = of_ℕ 0;
    p999_frametime_ms = of_ℕ 0;
    one_percent_low_fps = of_ℕ 0;
    point_one_percent_low_fps = of_ℕ 0;
    frametime_std_dev_ms = of_ℕ 0;
    total_frames = 0;
    stutter_count = 0;
  }

  -- `(v > 0.0) ? 1000.0 / v : 0.0`
  pub fps_of : F → F
  fps_of v = if lt (of_ℕ 0) v then div (of_ℕ 1000) v else of_ℕ 0

  -- `sort` is what `std::sort` makes of the samples.
  pub stats_of : (List F → List F) → List F → ℕ → FrameStats F
  unfolding sum_of pass percentile fps_of
  stats_of sort samples n =
      let mean = div (sum_of (of_ℕ 0) samples) (of_ℕ n) in
      let first = get_or samples 0 (of_ℕ 0) in
      let start : Pass F = record { mn = first; mx = first; sq = of_ℕ 0; stutters = 0 } in
      let s = pass mean (mul (of_ℕ 2) mean) start samples in
      let p99 = percentile (sort samples) n (literal 99 2) in
      let p999 = percentile (sort samples) n (literal 999 3) in
      record {
        avg_fps = fps_of mean;
        avg_frametime_ms = mean;
        min_frametime_ms = s.mn;
        max_frametime_ms = s.mx;
        p99_frametime_ms = p99;
        p999_frametime_ms = p999;
        one_percent_low_fps = fps_of p99;
        point_one_percent_low_fps = fps_of p999;
        frametime_std_dev_ms = sqrt (div s.sq (of_ℕ n));
        total_frames = n;
        stutter_count = s.stutters;
      }

  pub compute_stats : (List F → List F) → FrameMetrics F → FrameStats F
  unfolding samples_of stats_of no_stats
  compute_stats sort m =
      let active = RingBuffer.size max_window (of_ℕ 0) m.frametimes_ms in
      if active == 0 then no_stats else stats_of sort (samples_of m) (min active m.window)
