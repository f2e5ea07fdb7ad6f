-- ===== src/Resource/Scheduler/Renice.antt =====
-- What a change of the nice values does to the table, and what undoes it.
use mathlib.Core.Path.{subst}
use smooth_demon.Prelude.{
  ◌≡◌, min, refl, Bool, true, false, ◌&&◌, ◌||◌, List, [], ◌∷◌, Option, arith, if◌then◌else◌,
}
use smooth_demon.Prelude.Int.{ℤ, pos, negsuc, eq_ℤ}
use smooth_demon.Text.{Text}
use smooth_demon.Resource.Scheduler.{
  Outcome, NiceTable, ReniceLoop, set_priority, renice_each, get_process_threads, clamp_nice,
  renice_process_threads,
}

-- The call for the thread succeeds.
unfoldable pub allowed : (ℤ → Outcome) → ℤ → Bool
allowed outcome t = elim (outcome t) [ Outcome.ok ↦ true | _ ↦ false ]

-- The thread stands in the list, and its call succeeds.
unfoldable pub set_in : (ℤ → Outcome) → List ℤ → ℤ → Bool
unfolding allowed
set_in outcome [] t = false
set_in outcome (tid ∷ tids) t = (eq_ℤ t tid && allowed outcome tid) || set_in outcome tids t

unfoldable pub any_allowed : (ℤ → Outcome) → List ℤ → Bool
unfolding allowed
any_allowed outcome [] = false
any_allowed outcome (tid ∷ tids) = allowed outcome tid || any_allowed outcome tids

renice_each-table :
    (outcome : ℤ → Outcome) (v : ℤ) (tids : List ℤ) (r : ReniceLoop) (t : ℤ)
    → (renice_each outcome v tids r).nice t ≡ (if set_in outcome tids t then v else r.nice t)
unfolding renice_each set_priority set_in
renice_each-table outcome v [] r t = refl
renice_each-table outcome v (tid ∷ tids) r t =
    ground (arith, renice_each-table outcome v tids (set_priority outcome v tid r) t)

renice_each-any :
    (outcome : ℤ → Outcome) (v : ℤ) (tids : List ℤ) (r : ReniceLoop)
    → (renice_each outcome v tids r).any_ok ≡ (any_allowed outcome tids || r.any_ok)
unfolding renice_each set_priority any_allowed
renice_each-any outcome v [] r = refl
renice_each-any outcome v (tid ∷ tids) r =
    ground (arith, renice_each-any outcome v tids (set_priority outcome v tid r))

-- Above 19 counts as 19, below -20 as -20.
unfoldable pub nice_in_range : ℤ → ℤ
nice_in_range (pos n) = pos (min n 19)
nice_in_range (negsuc n) = negsuc (min n 19)

clamp_nice-in_range : (v : ℤ) → clamp_nice v ≡ nice_in_range v
unfolding clamp_nice nice_in_range
clamp_nice-in_range (pos n) = ground arith
clamp_nice-in_range (negsuc n) = ground arith

renice_process_threads-table :
    (task : Option (List Text)) (outcome : ℤ → Outcome) (nice_value : ℤ) (nice : NiceTable)
    → ((renice_process_threads task outcome nice_value nice).0
        ≡ any_allowed outcome (get_process_threads task))
      × ((t : ℤ)
          → (renice_process_threads task outcome nice_value nice).2 t ≡ (
              if set_in outcome (get_process_threads task) t
              then clamp_nice nice_value
              else nice t))
unfolding renice_process_threads set_in any_allowed
renice_process_threads-table task outcome nice_value nice =
    let tids = get_process_threads task in
    let v = clamp_nice nice_value in
    let r : ReniceLoop = record { nice = nice; any_ok = false; eperm_count = 0 } in
    ground (arith, renice_each-table outcome v tids r, renice_each-any outcome v tids r)

-- `ReniceProcessThreads` sets the threads for which the call succeeds to the value brought into the
-- range from -20 to 19, and no other thread; it succeeds exactly if one of the calls does.
pub renice_process_threads-exact :
    (task : Option (List Text)) (outcome : ℤ → Outcome) (nice_value : ℤ) (nice : NiceTable)
    → ((renice_process_threads task outcome nice_value nice).0
        ≡ any_allowed outcome (get_process_threads task))
      × ((t : ℤ)
          → (renice_process_threads task outcome nice_value nice).2 t ≡ (
              if set_in outcome (get_process_threads task) t
              then nice_in_range nice_value
              else nice t))
renice_process_threads-exact task outcome nice_value nice =
    subst
      (λ (v : ℤ).
        ((renice_process_threads task outcome nice_value nice).0
          ≡ any_allowed outcome (get_process_threads task))
        × ((t : ℤ)
            → (renice_process_threads task outcome nice_value nice).2 t
              ≡ (if set_in outcome (get_process_threads task) t then v else nice t)))
      (clamp_nice-in_range nice_value) (renice_process_threads-table task outcome nice_value nice)
