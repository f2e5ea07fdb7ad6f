-- ===== src/Benchmark/HighResTimer/Tests.antt =====
-- The theorem on the timer at a concrete input.
use smooth_demon.Prelude.{◌≡◌, [], ◌∷◌, arith}
use smooth_demon.Double.Fixed.{fixed_double}
use smooth_demon.Benchmark.HighResTimer.{high_res_timer, elapsed_ns}
use smooth_demon.Benchmark.HighResTimer.Ticks.{ticks, ticks-eq-elapsed}

ticks-eq-elapsed_example :
    ((ticks (high_res_timer 5) (9 ∷ 9 ∷ 20 ∷ [])).0
      ≡ elapsed_ns
          (ticks (high_res_timer 5) (9 ∷ 9 ∷ 20 ∷ [])).1
          (ticks (high_res_timer 5) (9 ∷ 9 ∷ 20 ∷ [])).1.last_tick)
    × ((ticks (high_res_timer 5) (9 ∷ 9 ∷ 20 ∷ [])).1.start ≡ 5)
ticks-eq-elapsed_example = ticks-eq-elapsed 5 (9 ∷ 9 ∷ 20 ∷ []) (omega arith)
