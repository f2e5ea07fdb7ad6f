-- ===== src/Pacer/TimerFd/Tests.antt =====
-- A timer that is armed, waited for and disarmed.
use smooth_demon.Prelude.{◌≡◌, refl, true, false, List, [], ◌∷◌, none, some, if◌then◌else◌}
use smooth_demon.Pacer.TimerFd.{
  TimerFd, Poll, interrupted, woken, expired, again, timer_fd, arm_absolute, disarm, wait,
}
use smooth_demon.Pacer.TimerFd.Waiting.{returns, disarm-arm-wait}

abbrev timer : TimerFd
timer = record { has_fd = true; has_pipe = true; value = (0, 0); pending = 0 }

constructs : timer_fd true true ≡ timer
unfolding timer_fd
constructs = refl

abbrev spurious : List Poll
spurious = interrupted ∷ woken 0 true again ∷ []

disarm-arm-wait_example :
    (wait
      (woken 0 true expired ∷ [])
      (arm_absolute (λ ts. true) 2_500_000_000 (disarm true timer)).1).0
    ≡ (if returns (woken 0 true expired ∷ []) then some false else none)
disarm-arm-wait_example =
    disarm-arm-wait timer (λ ts. true) 2_500_000_000 (woken 0 true expired ∷ []) refl refl
