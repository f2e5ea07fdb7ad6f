-- ===== src/Pacer/Presentation/Filter.antt =====
-- The draw-time filter of `PresentationPacer::UpdateLastDrawDuration`.
use smooth_demon.Prelude.{ℕ, zero, suc, ◌+◌, ◌-◌, ◌^◌, ◌≤◌, ◌<◌, ◌≡◌, refl, max, arith}
use smooth_demon.Pacer.Presentation.{
  PresentationPacer, filtered, update_last_draw_duration, mark_vblank,
}

-- A range in which the weighted sum of the filter does not wrap.
abbrev pub draw_limit : ℕ
draw_limit = 2 ^ 54

pub filtered_bounds :
    (rolling draw : ℕ)
    → rolling < draw_limit
    → draw < draw_limit
    → (draw ≤ filtered rolling draw)
      × (filtered rolling draw ≤ draw + (rolling - draw))
      × (draw < rolling → filtered rolling draw < rolling)
unfolding filtered
filtered_bounds rolling draw h k = ground arith

-- After each update the estimate and the red zone together fit in the refresh interval, or in the
-- red zone where that is the longer, so that the estimate is 0 then.
pub update_fits :
    (p : PresentationPacer) (draw : ℕ)
    → p.refresh_interval_ns < 2 ^ 64
    → let q = update_last_draw_duration p draw in
      q.rolling_max_draw_time_ns + q.red_zone_ns ≤ max q.refresh_interval_ns q.red_zone_ns
unfolding update_last_draw_duration
update_fits p draw h = ground arith

-- `n` updates with the same duration.
pub updates : ℕ → ℕ → PresentationPacer → PresentationPacer
updates zero draw p = p
updates (suc n) draw p = updates n draw (update_last_draw_duration p draw)

-- One update with a duration that leaves room for the red zone comes a nanosecond nearer to it, and
-- changes no other field.
update_approach :
    (p : PresentationPacer) (draw n : ℕ)
    → p.refresh_interval_ns < draw_limit
    → draw + p.red_zone_ns < p.refresh_interval_ns
    → p.rolling_max_draw_time_ns < draw_limit
    → p.rolling_max_draw_time_ns ≤ draw + suc n
    → let q = update_last_draw_duration p draw in
      (draw ≤ q.rolling_max_draw_time_ns)
      × (q.rolling_max_draw_time_ns ≤ draw + n)
      × (q.rolling_max_draw_time_ns < draw_limit)
      × (q.refresh_interval_ns ≡ p.refresh_interval_ns)
      × (q.red_zone_ns ≡ p.red_zone_ns)
unfolding update_last_draw_duration
update_approach p draw n hi hr hp hn =
    ground (arith, filtered_bounds p.rolling_max_draw_time_ns draw hp)

-- Under a steady draw time the estimate settles at that very time, in as many updates as it started
-- above it (and one), if the time leaves room for the red zone in the refresh interval.
pub updates_settle :
    (n : ℕ) (p : PresentationPacer) (draw : ℕ)
    → p.refresh_interval_ns < draw_limit
    → draw + p.red_zone_ns < p.refresh_interval_ns
    → p.rolling_max_draw_time_ns < draw_limit
    → p.rolling_max_draw_time_ns ≤ draw + suc n
    → (updates (suc n) draw p).rolling_max_draw_time_ns ≡ draw
unfolding updates
updates_settle zero p draw hi hr hp hn = omega (arith, update_approach p draw zero hi hr hp hn)
updates_settle (suc n) p draw hi hr hp hn =
    let q = update_last_draw_duration p draw in
    let (low, near, small, interval, red) = update_approach p draw (suc n) hi hr hp hn in
    updates_settle n q draw (omega arith) (omega arith) small near

-- A frame whose duration is the estimate keeps it, and the intervals.
pub steady_frame :
    (p : PresentationPacer) (draw vblank : ℕ)
    → p.refresh_interval_ns < draw_limit
    → draw + p.red_zone_ns < p.refresh_interval_ns
    → p.rolling_max_draw_time_ns ≡ draw
    → let q = mark_vblank (update_last_draw_duration p draw) vblank in
      (q.rolling_max_draw_time_ns ≡ draw)
      × (q.refresh_interval_ns ≡ p.refresh_interval_ns)
      × (q.red_zone_ns ≡ p.red_zone_ns)
      × (q.last_vblank_ns ≡ vblank)
unfolding mark_vblank
steady_frame p draw vblank hi hr e =
    let (low, near, small, interval, red) =
      update_approach p draw 0 hi hr (omega (arith, e)) (omega (arith, e)) in
    (omega (arith, low, near), interval, red, refl)
