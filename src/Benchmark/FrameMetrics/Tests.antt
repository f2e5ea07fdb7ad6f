-- ===== src/Benchmark/FrameMetrics/Tests.antt =====
-- Runs of the frame metrics, and the theorems at concrete inputs.
use mathlib.Core.List.{Perm}
use mathlib.Core.List.Perm
use smooth_demon.Prelude.{
  ℕ, ◌≡◌, refl, List, [], ◌∷◌, arith, keep_last, true, Bool-cases, inl, inr, if◌then◌else◌,
}
use smooth_demon.Prelude.Int.{pos}
use smooth_demon.Double.Fixed.{Fixed, fixed_double, Fixed-IsOrdered, Fixed-is_number}
use smooth_demon.Benchmark.RingBuffer
use smooth_demon.Benchmark.RingBuffer.{RingBuffer, push, ring_buffer}
use smooth_demon.Benchmark.FrameMetrics.{
  FrameMetrics, max_window, frame_metrics, compute_stats, samples_of,
}
use smooth_demon.Benchmark.FrameMetrics.Record.{
  held, record_all, record_all_refines, frame_times, cut_off,
}
use smooth_demon.Benchmark.FrameMetrics.Stats.{IsSummary, compute_stats-IsSummary}

-- 16 ms, a timestamp that goes back, 20 ms, and a stall that is cut off at 500 ms.
abbrev stamps : List ℕ
stamps = 16_000_000 ∷ 3 ∷ 36_000_000 ∷ 9_036_000_000 ∷ []

abbrev three : List Fixed
three = pos 16_000_000 ∷ pos 500_000_000 ∷ pos 20_000_000 ∷ []

frame_times_run :
    frame_times (pos 500_000_000) 0 stamps ≡ pos 16_000_000 ∷ pos 20_000_000 ∷ pos 500_000_000 ∷ []
unfolding frame_times cut_off
frame_times_run = refl

record_all_refines_example :
    held (record_all (frame_metrics {F = Fixed} 1000) (0 ∷ stamps))
    ≡ keep_last max_window (frame_times (pos 500_000_000) 0 stamps)
record_all_refines_example = record_all_refines {F = Fixed} 1000 0 stamps (omega arith)

-- A way to sort.
insert_sorted : Fixed → List Fixed → List Fixed
insert_sorted x [] = x ∷ []
insert_sorted x (y ∷ ys) = if fixed_double.lt y x then y ∷ insert_sorted x ys else x ∷ y ∷ ys

insertion_sort : List Fixed → List Fixed
unfolding insert_sorted
insertion_sort [] = []
insertion_sort (x ∷ xs) = insert_sorted x (insertion_sort xs)

insert_sorted-Perm : (x : Fixed) (xs : List Fixed) → Perm (insert_sorted x xs) (x ∷ xs)
unfolding insert_sorted
insert_sorted-Perm x [] = Perm.refl (x ∷ [])
insert_sorted-Perm x (y ∷ ys) = elim (Bool-cases (fixed_double.lt y x)) [
  | inl before ↦ rw before (Perm.trans (Perm.cons y (insert_sorted-Perm x ys)) (Perm.swap x y ys))
  | inr after ↦ rw after (Perm.refl (x ∷ y ∷ ys))
]

insertion_sort-Perm : (xs : List Fixed) → Perm (insertion_sort xs) xs
unfolding insertion_sort
insertion_sort-Perm [] = Perm.refl []
insertion_sort-Perm (x ∷ xs) =
    Perm.trans (insert_sorted-Perm x (insertion_sort xs)) (Perm.cons x (insertion_sort-Perm xs))

sorts_three : insertion_sort three ≡ pos 16_000_000 ∷ pos 20_000_000 ∷ pos 500_000_000 ∷ []
unfolding insertion_sort insert_sorted
sorts_three = refl

abbrev small_buffer : RingBuffer Fixed
small_buffer = record { slots = three; head = 3; count = 3 }

abbrev metrics : FrameMetrics Fixed
metrics = record {
  frametimes_ms = small_buffer;
  window = 2;
  last_timestamp_ns = 0;
  have_last = true;
  target_fps = pos 60_000_000;
  max_frametime_ms = pos 500_000_000;
}

compute_stats-IsSummary_example :
    IsSummary (samples_of metrics) (compute_stats insertion_sort metrics)
unfolding samples_of RingBuffer.size
compute_stats-IsSummary_example =
    compute_stats-IsSummary Fixed-IsOrdered insertion_sort metrics (λ xs ns. insertion_sort-Perm xs)
      (omega arith) (omega arith) (omega arith) (Fixed-is_number _, (Fixed-is_number _, tt))
