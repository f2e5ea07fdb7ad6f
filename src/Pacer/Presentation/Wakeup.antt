-- ===== src/Pacer/Presentation/Wakeup.antt =====
-- The loop of `PresentationPacer::CalculateNextWakeup`.
use smooth_demon.Prelude.{
  ℕ, zero, suc, ◌+◌, ◌-◌, ◌*◌, ◌^◌, ◌≤◌, ◌<◌, ◌≡◌, ◌⊎◌, inl, inr, refl, ap, none, some, false,
  arith, ltb, ltb→lt, Bool-cases,
}
use smooth_demon.Prelude.Words.{add64, add64_of_lt}
use smooth_demon.Prelude.Int.{pos, leb_ℤ}
use smooth_demon.Pacer.Presentation.{
  PresentationPacer, walk, walk_fuel, calculate_next_wakeup, refresh_hz_to_interval_ns,
  set_refresh_rate_hz,
}

-- The target after `k` rounds, where the loop stops: the first one that is not below the bound.
abbrev pub IsFirst : (interval bound target k : ℕ) → Type 0
IsFirst interval bound target k =
    (bound ≤ target + k * interval) × ((k ≡ 0) ⊎ (target + k * interval < bound + interval))

walk_finds :
    (fuel interval bound target : ℕ)
    → 0 < interval
    → bound + interval < 2 ^ 64
    → target < 2 ^ 64
    → bound - target < fuel
    → (k : ℕ) × (walk fuel interval bound target ≡ some (target + k * interval))
      × IsFirst interval bound target k
unfolding walk
walk_finds zero interval bound target hi hb ht hf = absurd (omega arith)
walk_finds (suc fuel) interval bound target hi hb ht hf = elim (Bool-cases (ltb target bound)) [
  | inl below ↦
      let lt = ltb→lt target bound below in
      let step : add64 target interval ≡ target + interval = omega arith in
      let (k, found, first) =
        walk_finds fuel interval bound (add64 target interval) hi hb (omega arith) (omega arith) in
      (
        suc k,
        rw (below, found) (ap some (omega (arith, ap (λ (t : ℕ). t + k * interval) step))),
        (omega (arith, first.0), inr (ground (arith, first.1))),
      )
  | inr above ↦ (0, ground arith, (ground arith, inl refl))
]

-- If the refresh interval is not 0, and neither the sum of the clock, the offset and one interval
-- nor that of the last VBlank and one interval reaches 2^64, the loop ends, and the wakeup lies one
-- offset before the first VBlank of the schedule, counted from the last one, that leaves the offset
-- from now on. So it is never in the past, and if the first VBlank was already too near it is less
-- than one interval ahead.
pub wakeup_on_schedule :
    (p : PresentationPacer) (now : ℕ)
    → 0 < p.refresh_interval_ns
    → p.rolling_max_draw_time_ns + p.red_zone_ns < 2 ^ 64
    → now + (p.rolling_max_draw_time_ns + p.red_zone_ns) + p.refresh_interval_ns < 2 ^ 64
    → p.last_vblank_ns + p.refresh_interval_ns < 2 ^ 64
    → let offset = p.rolling_max_draw_time_ns + p.red_zone_ns in
      let next = p.last_vblank_ns + p.refresh_interval_ns in
      (k wake : ℕ) × (calculate_next_wakeup p now ≡ some wake)
      × (wake + offset ≡ next + k * p.refresh_interval_ns)
      × (now ≤ wake)
      × ((k ≡ 0) ⊎ (wake < now + p.refresh_interval_ns))
unfolding calculate_next_wakeup walk_fuel
wakeup_on_schedule p now hi ho hn hl =
    let interval = p.refresh_interval_ns in
    let offset = p.rolling_max_draw_time_ns + p.red_zone_ns in
    let next = p.last_vblank_ns + interval in
    let (k, found, first) =
      walk_finds walk_fuel interval (now + offset) next hi hn hl (omega arith) in
    let small : next + k * interval < 2 ^ 64 = ground (arith, first) in
    (
      k,
      next + k * interval - offset,
      rw
          (
            add64_of_lt p.rolling_max_draw_time_ns p.red_zone_ns ho,
            add64_of_lt now offset (omega arith),
            add64_of_lt p.last_vblank_ns interval hl,
            found,
          )
          (ap some (omega (arith, first.0))),
      omega (arith, first.0),
      omega (arith, first.0),
      ground (arith, first),
    )

walk_here :
    (fuel interval bound target : ℕ)
    → 0 < fuel
    → bound ≤ target
    → walk fuel interval bound target ≡ some target
unfolding walk
walk_here zero interval bound target h le = absurd (omega arith)
walk_here (suc fuel) interval bound target h le = ground arith

-- Where the next VBlank leaves the offset, the wakeup lies one offset before it.
pub wakeup_in_time :
    (p : PresentationPacer) (now wake : ℕ)
    → p.last_vblank_ns + p.refresh_interval_ns ≡ wake + (p.rolling_max_draw_time_ns + p.red_zone_ns)
    → now ≤ wake
    → wake + (p.rolling_max_draw_time_ns + p.red_zone_ns) < 2 ^ 64
    → calculate_next_wakeup p now ≡ some wake
unfolding calculate_next_wakeup walk_fuel
wakeup_in_time p now wake e le small =
    let offset = p.rolling_max_draw_time_ns + p.red_zone_ns in
    let at_next = add64_of_lt p.last_vblank_ns p.refresh_interval_ns (omega (arith, e, small)) in
    rw
      (
        add64_of_lt p.rolling_max_draw_time_ns p.red_zone_ns (omega arith),
        add64_of_lt now offset (omega arith),
        at_next,
        e,
        walk_here walk_fuel p.refresh_interval_ns (now + offset) (wake + offset) (omega arith)
            (omega arith),
      )
      (ap some (omega arith))

walk_stuck :
    (fuel bound target : ℕ) → target < 2 ^ 64 → target < bound → walk fuel 0 bound target ≡ none
unfolding walk
walk_stuck zero bound target h b = refl
walk_stuck (suc fuel) bound target h b =
    ground (arith, walk_stuck fuel bound (add64 target 0) (omega arith))

huge_rate_interval : (hz : ℕ) → 1_000_000_000 < hz → refresh_hz_to_interval_ns (pos hz) ≡ 0
unfolding refresh_hz_to_interval_ns
huge_rate_interval hz h =
    let positive : leb_ℤ (pos hz) (pos 0) ≡ false = ground arith in rw positive (grind arith)

-- A refresh rate above 10^9 Hz, which the type `int` admits, makes the interval 0, and then the
-- loop never ends if the last VBlank lies before the clock and the offset.
pub huge_rate_hangs :
    (p : PresentationPacer) (hz now : ℕ)
    → 1_000_000_000 < hz
    → p.rolling_max_draw_time_ns + p.red_zone_ns + now < 2 ^ 64
    → p.last_vblank_ns < p.rolling_max_draw_time_ns + p.red_zone_ns + now
    → calculate_next_wakeup (set_refresh_rate_hz p (pos hz)) now ≡ none
unfolding calculate_next_wakeup set_refresh_rate_hz
huge_rate_hangs p hz now h small late =
    let offset = p.rolling_max_draw_time_ns + p.red_zone_ns in
    let last = add64_of_lt p.last_vblank_ns 0 (omega arith) in
    rw (
      huge_rate_interval hz h,
      add64_of_lt p.rolling_max_draw_time_ns p.red_zone_ns (omega arith),
      add64_of_lt now offset (omega arith),
      walk_stuck walk_fuel (now + offset) (add64 p.last_vblank_ns 0) (omega arith)
          (omega (arith, last)),
    )
