-- ===== src/Resource/IoPriority/Tests.antt =====
-- An IO priority at a concrete level.
use smooth_demon.Prelude.{◌≡◌, refl, true, some}
use smooth_demon.Prelude.Int.{pos}
use smooth_demon.Resource.IoPriority.{
  IoClass, class_code, make_io_prio, clamp_level, low13, set_process_io_priority,
  get_process_io_priority, set_get_io_priority, class_word, level_in_range,
}

-- The level 9 is stored as 7, under the best-effort class.
stores : set_process_io_priority (λ v. true) IoClass.best_effort (pos 9) ≡ (true, some 16391)
unfolding set_process_io_priority make_io_prio clamp_level low13 class_code
stores = refl

set_get_io_priority_example :
    (set_process_io_priority (λ v. true) IoClass.best_effort (pos 9) ≡ (true, some 16391))
    × (get_process_io_priority (pos 16391) ≡ pos 7)
unfolding class_word level_in_range
set_get_io_priority_example = set_get_io_priority (λ v. true) IoClass.best_effort (pos 9)
