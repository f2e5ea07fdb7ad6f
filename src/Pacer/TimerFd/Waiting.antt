-- ===== src/Pacer/TimerFd/Waiting.antt =====
-- Arming, waiting and disarming.
use smooth_demon.Prelude.{
  ℕ, ◌+◌, ◌*◌, ◌/◌, ◌%◌, ◌^◌, ◌<◌, ◌≡◌, refl, ◌∙◌, Bool, true, false, List, [], ◌∷◌, ◌++◌, Option,
  none, some, arith, All, if◌then◌else◌,
}
use smooth_demon.Pacer.TimerFd.{
  TimerFd, Poll, interrupted, failed, woken, expired, again, broken, arm_absolute, wait_loop, wait,
  disarm,
}

-- If `ArmAbsolute` succeeds, the timer is set to the given time, split into seconds and less than
-- 10^9 nanoseconds, and the pipe is as before; if it fails, nothing has changed.
pub arm_absolute_outcomes :
    (accepts : ℕ × ℕ → Bool) (monotonic_nanos : ℕ) (t : TimerFd)
    → ((arm_absolute accepts monotonic_nanos t).0 ≡ true
        → let (sec, nsec) = (arm_absolute accepts monotonic_nanos t).1.value in
          (sec * 10 ^ 9 + nsec ≡ monotonic_nanos)
          × (nsec < 10 ^ 9)
          × ((arm_absolute accepts monotonic_nanos t).1.pending ≡ t.pending))
      × ((arm_absolute accepts monotonic_nanos t).0 ≡ false
          → (arm_absolute accepts monotonic_nanos t).1 ≡ t)
unfolding arm_absolute
arm_absolute_outcomes accepts monotonic_nanos t = ground arith

-- `poll` returns, other than by an interruption.
unfoldable pub returns : List Poll → Bool
returns [] = false
returns (interrupted ∷ polls) = returns polls
returns (failed ∷ polls) = true
returns (woken nudges ready reading ∷ polls) = true

wait_loop_nudged :
    (polls : List Poll) (t : TimerFd)
    → t.has_pipe ≡ true
    → 0 < t.pending
    → (wait_loop polls t).0 ≡ (if returns polls then some false else none)
unfolding wait_loop returns
wait_loop_nudged [] t p n = refl
wait_loop_nudged (interrupted ∷ polls) t p n = wait_loop_nudged polls t p n
wait_loop_nudged (failed ∷ polls) t p n = refl
wait_loop_nudged (woken nudges ready reading ∷ polls) t p n = ground arith

wait_nudged :
    (polls : List Poll) (t : TimerFd)
    → t.has_fd ≡ true
    → t.has_pipe ≡ true
    → 0 < t.pending
    → (wait polls t).0 ≡ (if returns polls then some false else none)
unfolding wait
wait_nudged polls t fd p n = ground (arith, wait_loop_nudged polls t p n)

arm_absolute_keeps :
    (accepts : ℕ × ℕ → Bool) (monotonic_nanos : ℕ) (t : TimerFd)
    → let t' = (arm_absolute accepts monotonic_nanos t).1 in
      (t'.has_fd ≡ t.has_fd) × (t'.has_pipe ≡ t.has_pipe) × (t'.pending ≡ t.pending)
unfolding arm_absolute
arm_absolute_keeps accepts monotonic_nanos t = ground arith

-- A byte that `Disarm` has written, on a timer with its descriptor and its pipe, makes the next
-- `Wait` return false as soon as `poll` returns, and never true, even where the timer has been armed
-- again in between, to whatever time, and has fired.
pub disarm-arm-wait :
    (t : TimerFd) (accepts : ℕ × ℕ → Bool) (monotonic_nanos : ℕ) (polls : List Poll)
    → t.has_fd ≡ true
    → t.has_pipe ≡ true
    → let armed = (arm_absolute accepts monotonic_nanos (disarm true t)).1 in
      (wait polls armed).0 ≡ (if returns polls then some false else none)
unfolding disarm
disarm-arm-wait t accepts monotonic_nanos polls fd pipe =
    let (same_fd, same_pipe, same_pending) =
      arm_absolute_keeps accepts monotonic_nanos (disarm true t) in
    wait_nudged polls _ (same_fd ∙ fd) (same_pipe ∙ pipe) (ground arith)

-- A return of `poll` without a byte in the pipe that gives no result: an interruption, or one in
-- which the timer is not ready or has nothing to read.
unfoldable pub IsSpurious : Poll → Type 0
IsSpurious interrupted = Unit
IsSpurious failed = ⊥
IsSpurious (woken nudges ready expired) = (nudges ≡ 0) × (ready ≡ false)
IsSpurious (woken nudges ready again) = nudges ≡ 0
IsSpurious (woken nudges ready broken) = (nudges ≡ 0) × (ready ≡ false)

-- A timer that has fired: the result of the wait, and what is kept.
abbrev pub Fired : TimerFd → Option Bool × TimerFd → Type 0
Fired t r = (r.0 ≡ some true) × (r.1.has_fd ≡ t.has_fd) × (r.1.pending ≡ 0)

wait_loop-Fired :
    (polls after : List Poll) (t : TimerFd)
    → t.pending ≡ 0
    → All IsSpurious polls
    → Fired t (wait_loop (polls ++ (woken 0 true expired ∷ after)) t)
unfolding wait_loop IsSpurious
wait_loop-Fired [] after t n h = ground arith
wait_loop-Fired (failed ∷ polls) after t n h = absurd h.0
wait_loop-Fired (interrupted ∷ polls) after t n h = wait_loop-Fired polls after t n h.1
wait_loop-Fired (woken nudges ready expired ∷ polls) after t n h =
    ground (arith, wait_loop-Fired polls after (record t { pending = t.pending + nudges }))
wait_loop-Fired (woken nudges ready again ∷ polls) after t n h =
    ground (arith, wait_loop-Fired polls after (record t { pending = t.pending + nudges }))
wait_loop-Fired (woken nudges ready broken ∷ polls) after t n h =
    ground (arith, wait_loop-Fired polls after (record t { pending = t.pending + nudges }))

-- With no byte in the pipe, `Wait` returns true as soon as the timer has expired, after any number
-- of interruptions and spurious wakeups before, and leaves no byte.
pub wait-Fired :
    (polls after : List Poll) (t : TimerFd)
    → t.has_fd ≡ true
    → t.pending ≡ 0
    → All IsSpurious polls
    → Fired t (wait (polls ++ (woken 0 true expired ∷ after)) t)
unfolding wait
wait-Fired polls after t fd n h = ground (arith, wait_loop-Fired polls after t n h)

-- What `ArmAbsolute` does where the timer can be set.
pub arm_absolute_sets :
    (accepts : ℕ × ℕ → Bool) (monotonic_nanos : ℕ) (t : TimerFd)
    → t.has_fd ≡ true
    → accepts (monotonic_nanos / 10 ^ 9, monotonic_nanos % 10 ^ 9) ≡ true
    → let t' = (arm_absolute accepts monotonic_nanos t).1 in
      (t'.value ≡ (monotonic_nanos / 10 ^ 9, monotonic_nanos % 10 ^ 9))
      × (t'.has_fd ≡ true)
      × (t'.pending ≡ t.pending)
unfolding arm_absolute
arm_absolute_sets accepts monotonic_nanos t fd ok = ground (arith, fd, ok)
