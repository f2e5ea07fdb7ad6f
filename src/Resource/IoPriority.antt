-- ===== src/Resource/IoPriority.antt =====
-- src/resource/IOPriority.cpp and include/resource/IOPriority.h. The two system calls are arguments.
mod Tests
use smooth_demon.Prelude.{
  ℕ, ◌+◌, ◌-◌, ◌*◌, ◌/◌, ◌%◌, ◌^◌, ◌≤◌, ◌<◌, ◌≡◌, ◌∙◌, ap, min, Bool, true, false, Option, none,
  some, if◌then◌else◌, ltb, leb, arith,
}
use smooth_demon.Prelude.Int.{ℤ, pos, negsuc, ltb_ℤ}

pub data IoClass : Type 0 where
  no_class real_time best_effort idle : IoClass

pub class_code : IoClass → ℕ
class_code no_class = 0
class_code real_time = 1
class_code best_effort = 2
class_code idle = 3

-- `v & 0x1FFF` of a two's-complement value.
pub low13 : ℤ → ℕ
low13 (pos n) = n % 2 ^ 13
low13 (negsuc n) = 2 ^ 13 - 1 - n % 2 ^ 13

-- The shifted class and the data share no bit, so `|` is `+`.
pub make_io_prio : IoClass → ℤ → ℕ
unfolding class_code low13
make_io_prio cls prio_data = class_code cls * 2 ^ 13 + low13 prio_data

pub clamp_level : ℤ → ℤ
clamp_level level =
    let level' = if ltb_ℤ level (pos 0) then pos 0 else level in
    if ltb_ℤ (pos 7) level' then pos 7 else level'

-- The value that the kernel is asked to store, and stores if `accepts`.
pub set_process_io_priority : (ℕ → Bool) → IoClass → ℤ → Bool × Option ℕ
unfolding make_io_prio clamp_level
set_process_io_priority accepts cls level =
    let value = make_io_prio cls (clamp_level level) in
    if accepts value then (true, some value) else (false, none)

-- The argument is what `ioprio_get` returns.
pub get_process_io_priority : ℤ → ℤ
unfolding low13
get_process_io_priority (negsuc n) = negsuc 0
get_process_io_priority (pos v) = pos (low13 (pos v))

-- A class as it stands in the word, above bit 13.
unfoldable pub class_word : IoClass → ℕ
class_word no_class = 0
class_word real_time = 8192
class_word best_effort = 16384
class_word idle = 24576

-- A negative level counts as 0, and one above 7 as 7.
unfoldable pub level_in_range : ℤ → ℕ
level_in_range (pos n) = min n 7
level_in_range (negsuc n) = 0

clamp_level-in_range : (level : ℤ) → clamp_level level ≡ pos (level_in_range level)
unfolding clamp_level level_in_range
clamp_level-in_range (pos n) = ground arith
clamp_level-in_range (negsuc n) = ground arith

level_in_range_le : (level : ℤ) → level_in_range level ≤ 7
unfolding level_in_range
level_in_range_le (pos n) = omega arith
level_in_range_le (negsuc n) = omega arith

make_io_prio-small : (cls : IoClass) (n : ℕ) → n ≤ 7 → make_io_prio cls (pos n) ≡ class_word cls + n
unfolding make_io_prio class_word class_code low13
make_io_prio-small no_class n h = omega arith
make_io_prio-small real_time n h = omega arith
make_io_prio-small best_effort n h = omega arith
make_io_prio-small idle n h = omega arith

make_io_prio-word :
    (cls : IoClass) (level : ℤ)
    → make_io_prio cls (clamp_level level) ≡ class_word cls + level_in_range level
make_io_prio-word cls level =
    ap (make_io_prio cls) (clamp_level-in_range level)
    ∙ make_io_prio-small cls (level_in_range level) (level_in_range_le level)

low13-word :
    (cls : IoClass) (level : ℤ)
    → low13 (pos (class_word cls + level_in_range level)) ≡ level_in_range level
unfolding low13 class_word
low13-word no_class level = omega (arith, level_in_range_le level)
low13-word real_time level = omega (arith, level_in_range_le level)
low13-word best_effort level = omega (arith, level_in_range_le level)
low13-word idle level = omega (arith, level_in_range_le level)

-- Whatever the level, the kernel is asked to store the class above bit 13 and the level brought into
-- the range from 0 to 7 below it; the call succeeds and stores the word if the kernel takes it, and
-- fails and stores nothing if not; and from that word the level is read back.
pub set_get_io_priority :
    (accepts : ℕ → Bool) (cls : IoClass) (level : ℤ)
    → let word = class_word cls + level_in_range level in
      (set_process_io_priority accepts cls level
        ≡ (if accepts word then (true, some word) else (false, none)))
      × (get_process_io_priority (pos word) ≡ pos (level_in_range level))
unfolding set_process_io_priority get_process_io_priority class_word level_in_range
set_get_io_priority accepts cls level =
    let word_of : make_io_prio cls (clamp_level level) ≡ class_word cls + level_in_range level =
      make_io_prio-word cls level in
    (
      ap (λ (v : ℕ). if accepts v then (true, some v) else (false, none)) word_of,
      ap pos (low13-word cls level),
    )
