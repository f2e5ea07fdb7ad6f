-- ===== src/Resource/Scheduler/Tests.antt =====
-- Nice values and policies at concrete inputs.
use smooth_demon.Prelude.{◌≡◌, refl, true, false, List, [], ◌∷◌, Option, none, some, if◌then◌else◌}
use smooth_demon.Prelude.Int.{ℤ, eq_ℤ, pos, negsuc}
use smooth_demon.Text.{Text, codes, is_digit}
use smooth_demon.Text.Number.{take_while}
use smooth_demon.Text.Decimal.{value_from}
use smooth_demon.Resource.Scheduler.{
  Outcome, get_process_threads, threads_of, renice_process_threads, get_average_nice, sum_nice,
  get_logical_cpu_count, is_real_time, apply_scheduling_policy, thread_id, add_thread,
}
use smooth_demon.Resource.Scheduler.Renice.{
  any_allowed, set_in, renice_process_threads-exact, nice_in_range,
}

abbrev task_dir : Option (List Text)
task_dir = some (codes "." ∷ codes ".." ∷ codes "17" ∷ codes "18" ∷ [])

-- Only thread 17 may be changed.
abbrev outcomes : ℤ → Outcome
outcomes t = if eq_ℤ t (pos 17) then Outcome.ok else Outcome.eperm

lists_threads : get_process_threads task_dir ≡ pos 17 ∷ pos 18 ∷ []
unfolding get_process_threads threads_of add_thread thread_id take_while value_from is_digit
lists_threads = refl

averages : get_average_nice task_dir (λ t. some (negsuc 4)) ≡ negsuc 4
unfolding get_average_nice sum_nice get_process_threads threads_of add_thread thread_id take_while
    value_from is_digit
averages = refl

renice_process_threads-exact_example :
    ((renice_process_threads task_dir outcomes (negsuc 29) (λ t. pos 0)).0
      ≡ any_allowed outcomes (get_process_threads task_dir))
    × ((t : ℤ)
        → (renice_process_threads task_dir outcomes (negsuc 29) (λ t. pos 0)).2 t
          ≡ (if set_in outcomes (get_process_threads task_dir) t then negsuc 19 else pos 0))
unfolding nice_in_range
renice_process_threads-exact_example =
    renice_process_threads-exact task_dir outcomes (negsuc 29) (λ t. pos 0)

asks_round_robin : (apply_scheduling_policy (pos 4) (λ p q. true) 2).1 ≡ some (2, 1)
unfolding apply_scheduling_policy get_logical_cpu_count is_real_time
asks_round_robin = refl

refuses_round_robin : apply_scheduling_policy (pos 2) (λ p q. true) 2 ≡ (false, none)
unfolding apply_scheduling_policy get_logical_cpu_count is_real_time
refuses_round_robin = refl
