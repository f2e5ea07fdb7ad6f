-- ===== src/Pacer/TimerFd.antt =====
-- `TimerFd` of src/pacer/TimerFd.cpp and include/pacer/TimerFd.h. What the system calls return is an
-- argument: `wait` goes through a sequence of results of `poll`.
pub mod Waiting
mod Tests
use smooth_demon.Prelude.{
  ℕ, ◌+◌, ◌*◌, ◌/◌, ◌%◌, ◌^◌, Bool, true, false, ◌&&◌, List, [], ◌∷◌, ◌++◌, Option, none, some, ltb,
  if◌then◌else◌,
}

-- Whether the timer's descriptor and the pipe are open, the time last set, in seconds and
-- nanoseconds, of which (0, 0) disarms the timer, and the bytes in the pipe.
pub record TimerFd : Type 0 where
  pub has_fd : Bool
  pub has_pipe : Bool
  pub value : ℕ × ℕ
  pub pending : ℕ

-- The constructor, given whether `timerfd_create` and `pipe2` succeed.
pub timer_fd : Bool → Bool → TimerFd
timer_fd created piped = record {
  has_fd = created;
  has_pipe = created && piped;
  value = (0, 0);
  pending = 0;
}

-- `accepts` is whether `timerfd_settime` succeeds.
pub arm_absolute : (ℕ × ℕ → Bool) → ℕ → TimerFd → Bool × TimerFd
arm_absolute accepts monotonic_nanos t =
    let ts : ℕ × ℕ = (monotonic_nanos / 10 ^ 9, monotonic_nanos % 10 ^ 9) in
    if t.has_fd && accepts ts then (true, record t { value = ts }) else (false, t)

-- What reading the timer gives.
pub data Expiry : Type 0 where
  expired again broken : Expiry

-- A result of `poll`: an interruption, another failure, or a return in which the timer is ready or
-- not, after so many bytes that other threads have written to the pipe.
pub data Poll : Type 0 where
  interrupted failed : Poll
  woken : ℕ → Bool → Expiry → Poll

-- The result, none while the call still waits behind the last `poll`, and the timer.
pub wait_loop : List Poll → TimerFd → Option Bool × TimerFd
wait_loop [] t = (none, t)
wait_loop (interrupted ∷ polls) t = wait_loop polls t
wait_loop (failed ∷ polls) t = (some false, t)
wait_loop (woken nudges ready reading ∷ polls) t =
    let t' = record t { pending = t.pending + nudges } in
    let rest = wait_loop polls t' in
    if t.has_pipe && ltb 0 t'.pending
    then (some false, record t { pending = 0 })
    else if ready
    then (elim reading [ expired ↦ (some true, t') | again ↦ rest | broken ↦ (some false, t') ])
    else rest

pub wait : List Poll → TimerFd → Option Bool × TimerFd
unfolding wait_loop
wait polls t = if t.has_fd then wait_loop polls t else (some false, t)

-- `room` is whether the pipe takes a byte more.
pub disarm : Bool → TimerFd → TimerFd
disarm room t = record t {
  value = if t.has_fd then (0, 0) else t.value;
  pending = if t.has_pipe && room then t.pending + 1 else t.pending;
}

pub data Descriptor : Type 0 where
  timer pipe_read pipe_write : Descriptor

close_all : Bool → Bool → List Descriptor
close_all has_fd has_pipe =
    (if has_fd then timer ∷ [] else []) ++ (if has_pipe then pipe_read ∷ pipe_write ∷ [] else [])

-- The destructor, and the descriptors that it closes, in order.
pub destroy : Bool → TimerFd → TimerFd × List Descriptor
unfolding disarm close_all
destroy room t =
    let t' = disarm room t in
    (record t' { has_fd = false; has_pipe = false }, close_all t'.has_fd t'.has_pipe)
