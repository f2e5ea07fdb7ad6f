-- ===== src/Pacer/FrameLoop.antt =====
-- The frame loop of tests/test_pacer.cpp, which drives the pacer and the timer together.
pub mod Steady
mod Tests
use smooth_demon.Prelude.{ℕ, Bool, List, [], ◌∷◌, Option, none, some, ◌>>=◌}
use smooth_demon.Pacer.Presentation.{
  PresentationPacer, calculate_next_wakeup, update_last_draw_duration, mark_vblank,
}
use smooth_demon.Pacer.TimerFd.{TimerFd, Poll, arm_absolute, wait}

-- What a frame meets: the clock at its start, whether `timerfd_settime` succeeds, the results of
-- `poll`, and the measured duration of its work.
pub record Frame : Type 0 where
  pub now : ℕ
  pub accepts : ℕ × ℕ → Bool
  pub polls : List Poll
  pub work : ℕ

-- What a frame does: the wakeup that it computes, the time that the timer is set to when it waits,
-- and the result of the wait.
pub record Woken : Type 0 where
  pub wakeup : ℕ
  pub set_to : ℕ × ℕ
  pub fired : Bool

abbrev pub State : Type 0
State = PresentationPacer × TimerFd

-- From the result of the wait, none where it does not return. `marked` is the VBlank that is marked.
after_wait : ℕ → ℕ → ℕ × ℕ → ℕ → PresentationPacer → Option Bool × TimerFd → Option (Woken × State)
after_wait wakeup marked set_to work p (none, t) = none
after_wait wakeup marked set_to work p (some fired, t) = some (
  record { wakeup = wakeup; set_to = set_to; fired = fired },
  (mark_vblank (update_last_draw_duration p work) marked, t),
)

arm_and_wait : (ℕ → ℕ) → Frame → State → ℕ → Option (Woken × State)
unfolding after_wait
arm_and_wait mark f (p, t) wakeup =
    let armed = (arm_absolute f.accepts wakeup t).1 in
    after_wait wakeup (mark wakeup) armed.value f.work p (wait f.polls armed)

-- One round. The loop marks the wakeup itself, `λ wakeup. wakeup`.
pub frame : (ℕ → ℕ) → Frame → State → Option (Woken × State)
unfolding arm_and_wait
frame mark f (p, t) = do wakeup ← calculate_next_wakeup p f.now; arm_and_wait mark f (p, t) wakeup

-- All rounds, none where one of them does not end.
pub frames : (ℕ → ℕ) → List Frame → State → Option (List Woken × State)
unfolding frame
frames mark [] s = some ([], s)
frames mark (f ∷ fs) s = do
  (w, s') ← frame mark f s
  (ws, end) ← frames mark fs s'
  some (w ∷ ws, end)
