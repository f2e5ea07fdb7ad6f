-- ===== src/Pacer/Presentation/Tests.antt =====
-- Runs of the pacer, and its theorems at concrete inputs.
use smooth_demon.Prelude.{ℕ, ◌+◌, ◌*◌, ◌≤◌, ◌<◌, ◌≡◌, ◌⊎◌, refl, arith, max, none, some}
use smooth_demon.Prelude.Int.{pos, negsuc}
use smooth_demon.Pacer.Presentation.{
  PresentationPacer, presentation_pacer, refresh_hz_to_interval_ns, update_last_draw_duration,
  calculate_next_wakeup, walk, walk_fuel, mark_vblank, set_refresh_rate_hz, set_red_zone_ns,
}
use smooth_demon.Pacer.Presentation.Filter.{update_fits, updates, updates_settle}
use smooth_demon.Pacer.Presentation.Wakeup.{wakeup_on_schedule, huge_rate_hangs}

abbrev sixty : PresentationPacer
sixty = record {
  refresh_interval_ns = 16_666_666;
  last_vblank_ns = 0;
  rolling_max_draw_time_ns = 3_000_000;
  red_zone_ns = 1_650_000;
}

constructs : (presentation_pacer (pos 60) ≡ sixty) × (presentation_pacer (negsuc 4) ≡ sixty)
unfolding presentation_pacer refresh_hz_to_interval_ns
constructs = (refl, refl)

-- A spike is taken at once, and then decays.
spike_decays :
    ((update_last_draw_duration sixty 5_000_000).rolling_max_draw_time_ns ≡ 5_000_000)
    × ((update_last_draw_duration sixty 1_000_000).rolling_max_draw_time_ns ≡ 2_960_000)
    × ((update_last_draw_duration sixty 99_000_000).rolling_max_draw_time_ns ≡ 15_016_666)
    × ((update_last_draw_duration (set_red_zone_ns sixty 20_000_000) 5).rolling_max_draw_time_ns
        ≡ 0)
unfolding update_last_draw_duration set_red_zone_ns
spike_decays = (refl, refl, refl, refl)

wakes :
    (calculate_next_wakeup sixty 0 ≡ some 12_016_666)
    × (calculate_next_wakeup (mark_vblank sixty 16_666_666) 50_000_000 ≡ some 62_016_664)
unfolding calculate_next_wakeup walk walk_fuel mark_vblank
wakes = (refl, refl)

update_fits_example : 15_016_666 + 1_650_000 ≤ max 16_666_666 1_650_000
unfolding update_last_draw_duration
update_fits_example = update_fits sixty 99_000_000 (omega arith)

updates_settle_example : (updates 2_000_001 1_000_000 sixty).rolling_max_draw_time_ns ≡ 1_000_000
updates_settle_example =
    updates_settle 2_000_000 sixty 1_000_000 (omega arith) (omega arith) (omega arith) (omega arith)

wakeup_on_schedule_example :
    (k wake : ℕ) × (calculate_next_wakeup sixty 50_000_000 ≡ some wake)
    × (wake + 4_650_000 ≡ 16_666_666 + k * 16_666_666)
    × (50_000_000 ≤ wake)
    × ((k ≡ 0) ⊎ (wake < 66_666_666))
wakeup_on_schedule_example =
    wakeup_on_schedule sixty 50_000_000 (omega arith) (omega arith) (omega arith) (omega arith)

huge_rate_hangs_example :
    calculate_next_wakeup (set_refresh_rate_hz sixty (pos 2_000_000_000)) 7 ≡ none
huge_rate_hangs_example =
    huge_rate_hangs sixty 2_000_000_000 7 (omega arith) (omega arith) (omega arith)
