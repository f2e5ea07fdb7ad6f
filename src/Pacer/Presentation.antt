-- ===== src/Pacer/Presentation.antt =====
-- src/pacer/PresentationPacer.cpp and its header: the draw-time filter and the next wakeup.
pub mod Filter
pub mod Wakeup
mod Tests
use mathlib.Core.Option
use smooth_demon.Prelude.{
  ℕ, zero, suc, ◌+◌, ◌-◌, ◌*◌, ◌/◌, ◌^◌, Option, none, some, ltb, if◌then◌else◌, min,
}
use smooth_demon.Prelude.Words.{add64, sub64, mul64}
use smooth_demon.Prelude.Int.{ℤ, pos, leb_ℤ, to_u64}

abbrev pub default_red_zone_ns : ℕ
default_red_zone_ns = 1_650_000

abbrev pub starting_draw_time_ns : ℕ
starting_draw_time_ns = 3_000_000

abbrev pub decay_alpha : ℕ
decay_alpha = 980

abbrev pub decay_max : ℕ
decay_max = 1000

pub record PresentationPacer : Type 0 where
  pub refresh_interval_ns : ℕ
  pub last_vblank_ns : ℕ
  pub rolling_max_draw_time_ns : ℕ
  pub red_zone_ns : ℕ

pub refresh_hz_to_interval_ns : ℤ → ℕ
refresh_hz_to_interval_ns hz = 1_000_000_000 / to_u64 (if leb_ℤ hz (pos 0) then pos 60 else hz)

pub presentation_pacer : ℤ → PresentationPacer
presentation_pacer hz = record {
  refresh_interval_ns = refresh_hz_to_interval_ns hz;
  last_vblank_ns = 0;
  rolling_max_draw_time_ns = starting_draw_time_ns;
  red_zone_ns = default_red_zone_ns;
}

pub set_refresh_rate_hz : PresentationPacer → ℤ → PresentationPacer
set_refresh_rate_hz p hz = record p { refresh_interval_ns = refresh_hz_to_interval_ns hz }

pub set_red_zone_ns : PresentationPacer → ℕ → PresentationPacer
set_red_zone_ns p ns = record p { red_zone_ns = ns }

pub mark_vblank : PresentationPacer → ℕ → PresentationPacer
mark_vblank p ns = record p { last_vblank_ns = ns }

-- The jump up, or the geometric decay down.
pub filtered : ℕ → ℕ → ℕ
filtered rolling draw =
    if ltb rolling draw
    then draw
    else add64 (mul64 decay_alpha rolling) (mul64 (decay_max - decay_alpha) draw) / decay_max

pub update_last_draw_duration : PresentationPacer → ℕ → PresentationPacer
unfolding filtered
update_last_draw_duration p draw =
    let rolled = filtered p.rolling_max_draw_time_ns draw in
    record p {
      rolling_max_draw_time_ns =
          if ltb p.red_zone_ns p.refresh_interval_ns
          then min rolled (sub64 p.refresh_interval_ns p.red_zone_ns)
          else 0;
    }

-- `while (target < bound) target += interval;`, where `none` is out of fuel.
pub walk : ℕ → ℕ → ℕ → ℕ → Option ℕ
walk zero interval bound target = none
walk (suc fuel) interval bound target =
    let rest = walk fuel interval bound (add64 target interval) in
    if ltb target bound then rest else some target

-- More rounds than `target` has values, so that a loop which has not ended by then never does.
pub walk_fuel : ℕ
walk_fuel = 2 ^ 64 + 1

pub offset_ns : PresentationPacer → ℕ
offset_ns p = add64 p.rolling_max_draw_time_ns p.red_zone_ns

pub calculate_next_wakeup : PresentationPacer → ℕ → Option ℕ
unfolding offset_ns
calculate_next_wakeup p now =
    Option.map (λ target. sub64 target (offset_ns p))
      (walk walk_fuel p.refresh_interval_ns (add64 now (offset_ns p))
        (add64 p.last_vblank_ns p.refresh_interval_ns))
