-- ===== src/Resource/Scheduler.antt =====
-- src/resource/ProcessScheduler.cpp. /proc/<pid>/task and the outcomes of the system calls are
-- arguments; the nice values are a table by thread id.
pub mod Renice
mod Tests
use smooth_demon.Prelude.{
  ℕ, zero, suc, ◌+◌, ◌-◌, ◌*◌, ◌%◌, ◌^◌, min, Bool, true, false, not, ◌&&◌, ◌||◌, List, [], ◌∷◌,
  Option, none, some, ltb, leb, ◌==◌, if◌then◌else◌,
}
use smooth_demon.Prelude.Int.{ℤ, eq_ℤ, pos, negsuc, ltb_ℤ, leb_ℤ, ◌+ℤ◌, div_ℤ}
use smooth_demon.Text.{Text, is_digit}
use smooth_demon.Text.Decimal.{value}
use smooth_demon.Text.Number.{take_while, to_i32}

-- How a call of `setpriority` ends.
pub data Outcome : Type 0 where
  ok eperm other_error : Outcome

abbrev pub NiceTable : Type 0
NiceTable = ℤ → ℤ

-- The entry of a name that starts with a digit: `strtol`, which stops at 2^63 - 1, as a `pid_t`.
thread_id : Text → Option ℤ
thread_id name =
    let tid = min (value (take_while is_digit name)) (2 ^ 63 - 1) in
    if ltb 0 tid then some (to_i32 tid) else none

add_thread : Text → List ℤ → List ℤ
unfolding thread_id
add_thread [] tids = tids
add_thread (c ∷ name) tids = elim (thread_id (c ∷ name)) [
  | some tid ↦ if is_digit c then tid ∷ tids else tids
  | none ↦ tids
]

-- The names that `readdir` gives, `none` where the directory cannot be opened.
unfoldable pub threads_of : List Text → List ℤ
unfolding add_thread
threads_of [] = []
threads_of (name ∷ names) = add_thread name (threads_of names)

pub get_process_threads : Option (List Text) → List ℤ
unfolding threads_of
get_process_threads none = []
get_process_threads (some names) = threads_of names

pub clamp_nice : ℤ → ℤ
clamp_nice nice_value =
    let v = if ltb_ℤ nice_value (negsuc 19) then negsuc 19 else nice_value in
    if ltb_ℤ (pos 19) v then pos 19 else v

pub record ReniceLoop : Type 0 where
  pub nice : NiceTable
  pub any_ok : Bool
  pub eperm_count : ℕ

pub set_priority : (ℤ → Outcome) → ℤ → ℤ → ReniceLoop → ReniceLoop
set_priority outcome v tid r = elim (outcome tid) [
  | ok ↦ record {
    nice = λ t. if eq_ℤ t tid then v else r.nice t;
    any_ok = true;
    eperm_count = r.eperm_count;
  }
  | eperm ↦ record { nice = r.nice; any_ok = r.any_ok; eperm_count = r.eperm_count + 1 }
  | other_error ↦ r
]

pub renice_each : (ℤ → Outcome) → ℤ → List ℤ → ReniceLoop → ReniceLoop
unfolding set_priority
renice_each outcome v [] r = r
renice_each outcome v (tid ∷ tids) r = renice_each outcome v tids (set_priority outcome v tid r)

-- The result, whether the failure is reported on the error stream, and the new table.
pub renice_process_threads :
    Option (List Text) → (ℤ → Outcome) → ℤ → NiceTable → Bool × Bool × NiceTable
unfolding renice_each clamp_nice
renice_process_threads task outcome nice_value nice = elim (get_process_threads task) [
  | [] ↦ (false, false, nice)
  | tid ∷ tids ↦
      let r =
        renice_each outcome (clamp_nice nice_value) (tid ∷ tids)
          (record { nice = nice; any_ok = false; eperm_count = 0 }) in
      (r.any_ok, not r.any_ok && ltb 0 r.eperm_count, r.nice)
]

-- The sum and the number of the nice values that `getpriority` gives.
pub sum_nice : (ℤ → Option ℤ) → List ℤ → ℤ → ℕ → ℤ × ℕ
sum_nice getpriority [] sum count = (sum, count)
sum_nice getpriority (tid ∷ tids) sum count = elim (getpriority tid) [
  | none ↦ sum_nice getpriority tids sum count
  | some p ↦ sum_nice getpriority tids (sum +ℤ p) (count + 1)
]

pub get_average_nice : Option (List Text) → (ℤ → Option ℤ) → ℤ
unfolding sum_nice
get_average_nice task getpriority =
    let (sum, count) = sum_nice getpriority (get_process_threads task) (pos 0) 0 in
    if count == 0 then negsuc 127 else div_ℤ sum count

pub get_logical_cpu_count : ℤ → ℕ
get_logical_cpu_count (pos n) = if n == 0 then 1 else n
get_logical_cpu_count (negsuc n) = 1

-- SCHED_OTHER, SCHED_FIFO and SCHED_RR are 0, 1 and 2.
pub is_real_time : ℕ → Bool
is_real_time policy = policy == 1 || policy == 2

-- The result, and the policy and priority of the call of `sched_setscheduler`, if there is one.
pub apply_scheduling_policy : ℤ → (ℕ → ℕ → Bool) → ℕ → Bool × Option (ℕ × ℕ)
unfolding get_logical_cpu_count is_real_time
apply_scheduling_policy nproc accepts policy =
    let priority = if is_real_time policy then 1 else 0 in
    if leb (get_logical_cpu_count nproc) 2 && is_real_time policy
    then (false, none)
    else (accepts policy priority, some (policy, priority))

-- All threads back to nice 0, whatever becomes of the calls, then SCHED_OTHER.
pub restore_default_scheduling :
    Option (List Text)
    → (ℤ → Outcome)
    → ℤ
    → (ℕ → ℕ → Bool)
    → NiceTable
    → (Bool × Option (ℕ × ℕ)) × NiceTable
unfolding renice_each apply_scheduling_policy
restore_default_scheduling task outcome nproc accepts nice =
    let r =
      renice_each outcome (pos 0) (get_process_threads task)
        (record { nice = nice; any_ok = false; eperm_count = 0 }) in
    (apply_scheduling_policy nproc accepts 0, r.nice)
