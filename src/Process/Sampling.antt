-- ===== src/Process/Sampling.antt =====
-- What a sample of a process leaves behind.
use smooth_demon.Prelude.{
  ℕ, ◌≡◌, ◌≢◌, Bool, true, false, List, [], ◌∷◌, none, some, arith, Bool-cases, Option-cases, inl,
  inr,
}
use smooth_demon.Prelude.Int.{ℤ, pos, leb_ℤ}
use smooth_demon.Double.{Double}
use smooth_demon.Process.{
  ProcessMetrics, ProcessMonitor, Proc, ProcEntry, StatResult, stat, unreadable, out_of_range,
  read_stat, is_target, find_in, find_target_process, locate, not_running, account, sample_located,
  sample, reset,
}
use smooth_demon.Text.{Text}

-- The process is not the program itself, has a positive id, and passes the test for the target.
unfoldable pub IsTarget : ℤ → Text → (ℤ → ProcEntry) → ℤ → Type 0
IsTarget self target procs pid =
    (leb_ℤ pid (pos 0) ≡ false) × (pid ≢ self) × (is_target target (procs pid) ≡ true)

find_in-IsTarget :
    (self : ℤ) (target : Text) (procs : ℤ → ProcEntry) (names : List Text) (pid : ℤ)
    → find_in self target procs names ≡ some pid
    → IsTarget self target procs pid
unfolding find_in IsTarget
find_in-IsTarget self target procs [] pid e = ground arith
find_in-IsTarget self target procs (name ∷ names) pid e =
    ground (arith, find_in-IsTarget self target procs names pid)

locate-positive :
    (self : ℤ) (proc : Proc) (m m' : ProcessMonitor)
    → locate self proc m ≡ some m'
    → leb_ℤ m'.cached_pid (pos 0) ≡ false
unfolding locate find_target_process IsTarget
locate-positive self proc m m' e = elim (Bool-cases (leb_ℤ m.cached_pid (pos 0))) [
  | inl idle ↦ elim (Option-cases (find_target_process self m.target_name proc)) [
    | inl absent ↦ ground arith
    | inr (pid, found) ↦ elim (Option-cases proc.names) [
      | inl closed ↦ ground arith
      | inr (names, given) ↦
          ground (arith, find_in-IsTarget self m.target_name proc.entry names pid)
    ]
  ]
  | inr cached ↦ ground arith
]

locate-none :
    (self : ℤ) (proc : Proc) (m : ProcessMonitor)
    → locate self proc m ≡ none
    → leb_ℤ m.cached_pid (pos 0) ≡ true
unfolding locate
locate-none self proc m e = ground arith

account-kept :
    (F : Type 0) ⦃d : Double F⦄ (ticks now : ℕ) (m : ProcessMonitor)
    → let m' = (account {F = F} ticks now m).1 in
      (m'.cached_pid ≡ m.cached_pid) × (m'.first_sample ≡ false)
unfolding account
account-kept F ticks now m = ground arith

module _ {F : Type 0} ⦃d : Double F⦄ where
  -- What is left after a sample that returns.
  unfoldable pub IsOutcome : Bool → ProcessMetrics F → ProcessMonitor → Type 0
  IsOutcome true metrics m =
      (metrics.is_running ≡ true)
      × (metrics.pid ≡ m.cached_pid)
      × (leb_ℤ m.cached_pid (pos 0) ≡ false)
      × (m.first_sample ≡ false)
  IsOutcome false metrics m = (metrics ≡ not_running) × (leb_ℤ m.cached_pid (pos 0) ≡ true)

  sample_located-IsOutcome :
      (p : ProcEntry) (now : ℕ) (m m' : ProcessMonitor) (s : StatResult) (done : Bool)
      (metrics : ProcessMetrics F)
      → leb_ℤ m.cached_pid (pos 0) ≡ false
      → sample_located p now m s ≡ some (done, metrics, m')
      → IsOutcome done metrics m'
  unfolding sample_located reset IsOutcome
  sample_located-IsOutcome p now m m' unreadable true metrics h e = ground arith
  sample_located-IsOutcome p now m m' unreadable false metrics h e = ground arith
  sample_located-IsOutcome p now m m' out_of_range done metrics h e = ground arith
  sample_located-IsOutcome p now m m' (stat state ticks) true metrics h e =
      ground (arith, account-kept F ticks now m)
  sample_located-IsOutcome p now m m' (stat state ticks) false metrics h e = ground arith

  -- What a sample that returns leaves: a sample that fails gives the metrics of no process and
  -- leaves no process cached, so that the next one searches again; one that succeeds gives those of
  -- the cached process, whose id is positive, and the next sample is no longer a first one.
  pub sample-IsOutcome :
      (self : ℤ) (proc : Proc) (now : ℕ) (m m' : ProcessMonitor) (done : Bool)
      (metrics : ProcessMetrics F)
      → sample self proc now m ≡ some (done, metrics, m')
      → IsOutcome done metrics m'
  unfolding sample IsOutcome
  sample-IsOutcome self proc now m m' done metrics e = elim (Option-cases (locate self proc m)) [
    | inl none_found ↦ ground (arith, locate-none self proc m none_found)
    | inr (m'', found) ↦
        sample_located-IsOutcome (proc.entry m''.cached_pid) now m'' m'
          (read_stat (proc.entry m''.cached_pid).stat_file) done metrics
          (locate-positive self proc m m'' found) (ground arith)
  ]
