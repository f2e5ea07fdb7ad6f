-- ===== src/Benchmark/HighResTimer/Ticks.antt =====
-- The ticks of `HighResTimer` add up to the elapsed time.
use smooth_demon.Prelude.{ℕ, ◌+◌, ◌^◌, ◌≤◌, ◌<◌, ◌≡◌, refl, List, [], ◌∷◌, arith}
use smooth_demon.Benchmark.HighResTimer.{HighResTimer, high_res_timer, elapsed_ns, tick_ns}

-- The clock does not go back, and stays below 2^63.
abbrev pub IsSteady : ℕ → List ℕ → Type 0
IsSteady last [] = last < 2 ^ 63
IsSteady last (now ∷ rest) = (last ≤ now) × IsSteady now rest

-- The sum of all ticks, and the timer after them.
pub ticks : HighResTimer → List ℕ → ℕ × HighResTimer
ticks t [] = (0, t)
ticks t (now ∷ rest) =
    let (delta, t') = tick_ns t now in let (sum, end) = ticks t' rest in (delta + sum, end)

below : (last : ℕ) (nows : List ℕ) → IsSteady last nows → last < 2 ^ 63
below last [] s = s
below last (now ∷ rest) (le, s) = omega (arith, below now rest s)

ticks_anchor :
    (t : HighResTimer) (nows : List ℕ)
    → IsSteady t.last_tick nows
    → let (sum, end) = ticks t nows in
      (t.last_tick + sum ≡ end.last_tick) × (end.start ≡ t.start) × (end.last_tick < 2 ^ 63)
unfolding ticks tick_ns
ticks_anchor t [] s = (omega arith, refl, s)
ticks_anchor t (now ∷ rest) (le, s) =
    ground (arith, below now rest s, ticks_anchor (record t { last_tick = now }) rest s)

-- On a steady clock the ticks of a new timer add up to what `ElapsedNs` gives at the last of them,
-- however many there are: no nanosecond is lost or counted twice, and ticking does not move the
-- start.
pub ticks-eq-elapsed :
    (start : ℕ) (nows : List ℕ)
    → IsSteady start nows
    → let (sum, end) = ticks (high_res_timer start) nows in
      (sum ≡ elapsed_ns end end.last_tick) × (end.start ≡ start)
unfolding elapsed_ns high_res_timer
ticks-eq-elapsed start nows s =
    ground (arith, ticks_anchor (record { start = start; last_tick = start }) nows s)
