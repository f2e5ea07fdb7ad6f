-- ===== src/Compute/Profiling.antt =====
-- The namespace `OpenCLProfiling` of include/compute/OpenCLProfiling.h: durations from the times of
-- an event. What `clGetEventProfilingInfo` gives is an argument, none where it fails; `cl_ulong` has
-- 64 bits and `end - start` is computed only where it is positive.
use smooth_demon.Double.{Double}
use smooth_demon.Prelude.{ℕ, ◌-◌, Option, none, some, ltb, if◌then◌else◌}

pub record EventTimes : Type 0 where
  pub start : Option ℕ
  pub end : Option ℕ

or_zero : Option ℕ → ℕ
or_zero none = 0
or_zero (some t) = t

pub get_event_start_ns : EventTimes → ℕ
unfolding or_zero
get_event_start_ns event = or_zero event.start

pub get_event_end_ns : EventTimes → ℕ
unfolding or_zero
get_event_end_ns event = or_zero event.end

pub get_event_duration_ns : EventTimes → ℕ
unfolding get_event_start_ns get_event_end_ns
get_event_duration_ns event =
    let start = get_event_start_ns event in
    let end = get_event_end_ns event in if ltb start end then end - start else 0

-- The quotient by 1'000'000.0.
pub get_event_duration_ms : {F : Type 0} ⦃d : Double F⦄ → EventTimes → F
unfolding get_event_duration_ns
get_event_duration_ms ⦃d⦄ event = d.div (d.of_ℕ (get_event_duration_ns event)) (d.of_ℕ 1_000_000)
