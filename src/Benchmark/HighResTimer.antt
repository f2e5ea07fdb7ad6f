-- ===== src/Benchmark/HighResTimer.antt =====
-- src/benchmark/HighResTimer.cpp. A time point of `steady_clock` is its count of nanoseconds, the
-- reading of the clock is an argument, and the clock never goes back, so a difference is a number.
pub mod Ticks
mod Tests
use smooth_demon.Prelude.{ℕ, ◌-◌, ◌^◌}
use smooth_demon.Prelude.Words.{sub64}
use smooth_demon.Double.{Double}

pub record HighResTimer : Type 0 where
  pub start : ℕ
  pub last_tick : ℕ

pub high_res_timer : ℕ → HighResTimer
high_res_timer now = record { start = now; last_tick = now }

pub reset : HighResTimer → ℕ → HighResTimer
reset t now = record { start = now; last_tick = now }

pub elapsed_ns : HighResTimer → ℕ → ℕ
elapsed_ns t now = sub64 now t.start

-- Each tick returns the time since the previous one, and moves the tick anchor.
pub tick_ns : HighResTimer → ℕ → ℕ × HighResTimer
tick_ns t now = (sub64 now t.last_tick, record t { last_tick = now })

module _ {F : Type 0} ⦃d : Double F⦄ where
  -- A duration in units of `unit` nanoseconds, as a double.
  pub in_units : ℕ → ℕ → F
  in_units unit ns = d.div (d.of_ℕ ns) (d.of_ℕ unit)

  pub elapsed_us : HighResTimer → ℕ → F
  unfolding in_units
  elapsed_us t now = in_units 1_000 (now - t.start)

  pub elapsed_ms : HighResTimer → ℕ → F
  unfolding in_units
  elapsed_ms t now = in_units 1_000_000 (now - t.start)

  pub elapsed_sec : HighResTimer → ℕ → F
  unfolding in_units
  elapsed_sec t now = in_units 1_000_000_000 (now - t.start)

  pub tick_us : HighResTimer → ℕ → F × HighResTimer
  unfolding in_units
  tick_us t now = (in_units 1_000 (now - t.last_tick), record t { last_tick = now })

  pub tick_ms : HighResTimer → ℕ → F × HighResTimer
  unfolding in_units
  tick_ms t now = (in_units 1_000_000 (now - t.last_tick), record t { last_tick = now })

  pub tick_sec : HighResTimer → ℕ → F × HighResTimer
  unfolding in_units
  tick_sec t now = (in_units 1_000_000_000 (now - t.last_tick), record t { last_tick = now })
