-- ===== src/Benchmark/FrameMetrics/Record.antt =====
-- `RecordTimestamp`: which frame times the buffer holds after a sequence of timestamps.
use mathlib.Core.List.{append-nil, append_assoc}
use native.Mathlib.Nat.{zero-add}
use smooth_demon.Prelude.{
  ℕ, ◌+◌, ◌-◌, ◌^◌, ◌<◌, ◌≡◌, ◌∙◌, sym, ap, refl, true, false, List, [], ◌∷◌, ◌++◌, arith, leb,
  if◌then◌else◌, Bool-cases, All, keep_last, keep_last_of_le, keep_last-append_keep_last, min,
  collect, drop, drop-collect, length, inl, inr,
}
use smooth_demon.Prelude.Words.{sub64}
use smooth_demon.Double.{Double}
use smooth_demon.Benchmark.RingBuffer
use smooth_demon.Benchmark.RingBuffer.Slots.{ring_buffer-IsValid, IsValid, push-IsValid}
use smooth_demon.Benchmark.RingBuffer.Contents.{
  contents-ring_buffer, contents, push_refines, length-contents, contents-eq-collect,
}
use smooth_demon.Benchmark.FrameMetrics.{
  FrameMetrics, max_window, frame_metrics, frame_time, record_timestamp, samples_of,
}

module _ {F : Type 0} ⦃d : Double F⦄ where
  -- The difference in milliseconds, cut off at the limit.
  unfoldable pub cut_off : F → ℕ → F
  cut_off limit delta_ns =
      if d.lt limit (d.div (d.of_ℕ delta_ns) (d.of_ℕ 1_000_000))
      then limit
      else d.div (d.of_ℕ delta_ns) (d.of_ℕ 1_000_000)

  -- The frame times between the timestamps that rise above all before them.
  unfoldable pub frame_times : F → ℕ → List ℕ → List F
  frame_times limit last [] = []
  frame_times limit last (t ∷ ts) =
      if leb t last
      then frame_times limit last ts
      else cut_off limit (t - last) ∷ frame_times limit t ts

  pub record_all : FrameMetrics F → List ℕ → FrameMetrics F
  record_all m [] = m
  record_all m (t ∷ ts) = record_all (record_timestamp m t) ts

  abbrev pub held : FrameMetrics F → List F
  held m = contents max_window (d.of_ℕ 0) m.frametimes_ms

  abbrev IsSound : FrameMetrics F → Type 0
  IsSound m = IsValid max_window (d.of_ℕ 0) m.frametimes_ms

  record_skips :
      (m : FrameMetrics F) (t : ℕ)
      → m.have_last ≡ true
      → leb t m.last_timestamp_ns ≡ true
      → record_timestamp m t ≡ m
  unfolding record_timestamp
  record_skips m t h le = rw (h, le)

  record_rises :
      (m : FrameMetrics F) (t : ℕ)
      → m.have_last ≡ true
      → leb t m.last_timestamp_ns ≡ false
      → t < 2 ^ 64
      → record_timestamp m t ≡ record m {
        last_timestamp_ns = t;
        frametimes_ms =
            RingBuffer.push max_window
              (d.of_ℕ 0)
              m.frametimes_ms
              (cut_off m.max_frametime_ms (t - m.last_timestamp_ns));
      }
  unfolding record_timestamp frame_time cut_off
  record_rises m t h gt small =
      let delta : sub64 t m.last_timestamp_ns ≡ t - m.last_timestamp_ns = ground arith in
      rw (h, gt, delta)

  held-record_all :
      (ts : List ℕ) (m : FrameMetrics F)
      → m.have_last ≡ true
      → IsSound m
      → All (λ t. t < 2 ^ 64) ts
      → held (record_all m ts)
        ≡ keep_last max_window (held m ++ frame_times m.max_frametime_ms m.last_timestamp_ns ts)
  unfolding record_all frame_times
  held-record_all [] m h v small = rw append-nil (
      sym (
        keep_last_of_le max_window (held m)
          (omega (arith, length-contents max_window (d.of_ℕ 0) m.frametimes_ms, v.count_le))))
  held-record_all (t ∷ ts) m h v (small, rest) = elim (Bool-cases (leb t m.last_timestamp_ns)) [
    | inl le ↦
        ap (λ (n : FrameMetrics F). held (record_all n ts)) (record_skips m t h le)
        ∙ rw le (held-record_all ts m h v rest)
    | inr gt ↦
        let b = m.frametimes_ms in
        let x = cut_off m.max_frametime_ms (t - m.last_timestamp_ns) in
        let next : FrameMetrics F = record m {
          last_timestamp_ns = t;
          frametimes_ms = RingBuffer.push max_window (d.of_ℕ 0) b x;
        } in
        let step : record_timestamp m t ≡ next = record_rises m t h gt small in
        let later = frame_times m.max_frametime_ms t ts in
        let held_next : held next ≡ keep_last max_window (held m ++ (x ∷ [])) =
          push_refines max_window (d.of_ℕ 0) b x v in
        ap (λ (n : FrameMetrics F). held (record_all n ts)) step
        ∙ held-record_all ts next h (push-IsValid max_window (d.of_ℕ 0) b x v) rest
        ∙ ap (λ (xs : List F). keep_last max_window (xs ++ later)) held_next
        ∙ keep_last-append_keep_last max_window (held m ++ (x ∷ [])) later
        ∙ rw gt (ap (keep_last max_window) (append_assoc (held m) (x ∷ []) later))
  ]

  -- The first timestamp is only the baseline. Then each timestamp above all before it gives one frame
  -- time, cut off at 500 ms, the others give none, and the buffer holds the newest 4096 frame times,
  -- oldest first.
  pub record_all_refines :
      (window first : ℕ) (ts : List ℕ)
      → All (λ t. t < 2 ^ 64) ts
      → held (record_all (frame_metrics window) (first ∷ ts))
        ≡ keep_last max_window (frame_times (d.of_ℕ 500) first ts)
  unfolding record_all record_timestamp frame_metrics
  record_all_refines window first ts small =
      let start = record_timestamp (frame_metrics window) first in
      held-record_all ts start refl
        (ring_buffer-IsValid max_window (d.of_ℕ 0) (omega arith) (omega arith)) small
      ∙ ap (λ (xs : List F). keep_last max_window (xs ++ frame_times (d.of_ℕ 500) first ts))
          (contents-ring_buffer max_window (d.of_ℕ 0))

  -- `ComputeStats` looks at the newest samples of the buffer, as many as the window has.
  pub samples_of_newest : (m : FrameMetrics F) → samples_of m ≡ keep_last m.window (held m)
  unfolding samples_of RingBuffer.size
  samples_of_newest m =
      let b = m.frametimes_ms in
      let n = min b.count m.window in
      let f = RingBuffer.at max_window (d.of_ℕ 0) b in
      let all : held m ≡ collect f 0 b.count = contents-eq-collect max_window (d.of_ℕ 0) b in
      let len : length (held m) ≡ b.count = length-contents max_window (d.of_ℕ 0) b in
      let start : length (held m) - m.window ≡ b.count - n = omega arith in
      let parts : b.count ≡ (b.count - n) + n = omega arith in
      sym (
        ap (λ (k : ℕ). drop k (held m)) start
        ∙ ap (drop (b.count - n)) (all ∙ ap (collect f 0) parts)
        ∙ drop-collect f (b.count - n) 0 n
        ∙ ap (λ (k : ℕ). collect f k n) (zero-add (b.count - n)))
