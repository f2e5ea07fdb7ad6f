-- ===== src/Process/Search.antt =====
-- Which process the search for the target finds.
use smooth_demon.Prelude.{◌≡◌, ◌⊎◌, true, false, List, ◌∷◌, ◌++◌, Option, none, some, All}
use smooth_demon.Prelude.Int.{ℤ, pos, ltb_ℤ, eq_ℤ}
use smooth_demon.Text.{Text, text_eq, contains, is_empty}
use smooth_demon.Process.{ProcEntry, read_comm, read_cmdline, pid_of, starts_digit}

-- The target's name is that of the process or stands in it, or stands in its command line.
unfoldable pub Names : Text → ProcEntry → Type 0
Names target p =
    ((is_empty (read_comm p.comm) ≡ false)
      × ((text_eq (read_comm p.comm) target ≡ true) ⊎ (contains target (read_comm p.comm) ≡ true)))
    ⊎ ((is_empty (read_cmdline p.cmdline) ≡ false)
        × (contains target (read_cmdline p.cmdline) ≡ true))

-- The entry of /proc is a process other than the program itself, and the target's name is in it.
unfoldable pub Qualifies : ℤ → Text → (ℤ → ProcEntry) → Text → Type 0
Qualifies self target procs name =
    (starts_digit name ≡ true)
    × (ltb_ℤ (pos 0) (pid_of name) ≡ true)
    × (eq_ℤ (pid_of name) self ≡ false)
    × Names target (procs (pid_of name))

-- The first entry that qualifies, or none where no entry does.
unfoldable pub IsFirst : ℤ → Text → (ℤ → ProcEntry) → List Text → Option ℤ → Type 0
IsFirst self target procs names none = All (λ name. ¬ Qualifies self target procs name) names
IsFirst self target procs names (some pid) =
    (before : List Text) × (name : Text) × (after : List Text) × (names ≡ before ++ name ∷ after)
    × All (λ other. ¬ Qualifies self target procs other) before
    × Qualifies self target procs name
    × (pid ≡ pid_of name)
