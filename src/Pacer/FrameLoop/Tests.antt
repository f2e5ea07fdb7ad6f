-- ===== src/Pacer/FrameLoop/Tests.antt =====
-- Three frames of the loop at 60 Hz, with 4 ms of work.
use smooth_demon.Prelude.{ℕ, ◌+◌, ◌≡◌, refl, true, List, [], ◌∷◌, some, arith}
use smooth_demon.Pacer.Presentation.{PresentationPacer}
use smooth_demon.Pacer.TimerFd.{TimerFd, interrupted, woken, expired}
use smooth_demon.Pacer.TimerFd.Waiting.{IsSpurious}
use smooth_demon.Pacer.FrameLoop.{Frame, State, frames}
use smooth_demon.Pacer.FrameLoop.Steady.{Fires, OnTime, every, frames_steady}

abbrev pacer : PresentationPacer
pacer = record {
  refresh_interval_ns = 16_666_666;
  last_vblank_ns = 1_000_000;
  rolling_max_draw_time_ns = 4_000_000;
  red_zone_ns = 1_650_000;
}

abbrev timer : TimerFd
timer = record { has_fd = true; has_pipe = true; value = (0, 0); pending = 0 }

abbrev frame_at : ℕ → Frame
frame_at now = record {
  now = now;
  accepts = λ ts. true;
  polls = interrupted ∷ woken 0 true expired ∷ [];
  work = 4_000_000;
}

abbrev three : List Frame
three = frame_at 1_000_100 ∷ frame_at 16_020_000 ∷ frame_at 27_040_000 ∷ []

fires : Fires (interrupted ∷ woken 0 true expired ∷ [])
unfolding IsSpurious
fires = (interrupted ∷ [], [], refl, (tt, tt))

three-OnTime : OnTime 4_000_000 5_650_000 (11_016_666 + 0) three 12_016_666
unfolding OnTime
three-OnTime = (
  omega arith,
  omega arith,
  refl,
  fires,
  refl,
  (omega arith, omega arith, refl, fires, refl, (omega arith, omega arith, refl, fires, refl, tt)),
)

-- The wakeups are 11.02 ms apart, not a refresh interval.
frames_steady_example :
    (end : State) × (frames (λ wakeup. wakeup + 0) three (pacer, timer)
      ≡ some (every (11_016_666 + 0) 3 12_016_666, end))
frames_steady_example =
    frames_steady three pacer timer 0 (omega arith) (omega arith) refl refl three-OnTime

sums_up :
    every 11_016_666 2 12_016_666
    ≡ record { wakeup = 12_016_666; set_to = (0, 12_016_666); fired = true }
      ∷ record { wakeup = 23_033_332; set_to = (0, 23_033_332); fired = true }
      ∷ []
unfolding every
sums_up = refl
