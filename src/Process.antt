-- ===== src/Process.antt =====
-- `ProcessMonitor` of src/process.cpp and include/process.hpp. /proc is an argument of its
-- operations, and times are nanoseconds of the steady clock.
pub mod Files
pub mod Stat
pub mod Sampling
pub mod Search
mod Tests
unfoldable pub use Files.*
use smooth_demon.Prelude.{
  ℕ, zero, suc, ◌+◌, ◌-◌, ◌^◌, Bool, true, false, not, ◌&&◌, ◌||◌, List, [], ◌∷◌, Option, none,
  some, ltb, leb, ◌==◌, if◌then◌else◌,
}
use smooth_demon.Prelude.Int.{ℤ, pos, negsuc, leb_ℤ, ltb_ℤ}
use smooth_demon.Prelude.Words.{sub64}
use smooth_demon.Double.{Double}
use smooth_demon.Text.{Text, text_eq, contains, is_empty, is_digit}

pub record ProcessMetrics (F : Type 0) : Type 0 where
  pub pid : ℤ
  pub name : Text
  pub cmdline : Text
  pub state : ℕ
  pub rss_kib : ℕ
  pub virt_kib : ℕ
  pub num_threads : ℕ
  pub cpu_percent : F
  pub is_running : Bool

pub record ProcessMonitor : Type 0 where
  pub target_name : Text
  pub cached_pid : ℤ
  pub clk_tck : ℕ
  pub num_cores : ℕ
  pub prev_ticks : ℕ
  pub prev_time : ℕ
  pub first_sample : Bool

-- What `sysconf` returns, or the initial value where that is not positive.
positive_or : ℕ → ℤ → ℕ
positive_or v (pos n) = if n == 0 then v else n
positive_or v (negsuc n) = v

-- The constructor, given what `sysconf` returns for _SC_CLK_TCK and _SC_NPROCESSORS_ONLN.
pub process_monitor : Text → ℤ → ℤ → ProcessMonitor
unfolding positive_or
process_monitor target_name tck n = record {
  target_name = target_name;
  cached_pid = negsuc 0;
  clk_tck = positive_or 100 tck;
  num_cores = positive_or 1 n;
  prev_ticks = 0;
  prev_time = 0;
  first_sample = true;
}

pub reset : ProcessMonitor → ProcessMonitor
reset m = record m { cached_pid = negsuc 0; prev_ticks = 0; prev_time = 0; first_sample = true }

-- One process has the target's name in its comm or its command line.
pub is_target : Text → ProcEntry → Bool
is_target target p =
    let comm = read_comm p.comm in
    let cmd = read_cmdline p.cmdline in
    (not (is_empty comm) && (text_eq comm target || contains target comm))
    || (not (is_empty cmd) && contains target cmd)

-- The loop over the names in /proc; `self` is what `getpid` returns.
pub find_in : ℤ → Text → (ℤ → ProcEntry) → List Text → Option ℤ
unfolding is_target
find_in self target procs [] = none
find_in self target procs (name ∷ names) =
    let rest = find_in self target procs names in
    let pid = pid_of name in
    if not (starts_digit name) || leb_ℤ pid (pos 0)
    then rest
    else if leb_ℤ pid self && leb_ℤ self pid
    then rest
    else if is_target target (procs pid)
    then some pid
    else rest

pub find_target_process : ℤ → Text → Proc → Option ℤ
unfolding find_in
find_target_process self target proc = elim proc.names [
  | none ↦ none
  | some names ↦ find_in self target proc.entry names
]

-- The process to sample, and the monitor that has it cached.
pub locate : ℤ → Proc → ProcessMonitor → Option ProcessMonitor
unfolding find_target_process
locate self proc m =
    if leb_ℤ m.cached_pid (pos 0)
    then (elim (find_target_process self m.target_name proc) [
      | none ↦ none
      | some pid ↦ some (record m { cached_pid = pid; first_sample = true })
    ])
    else some m

module _ {F : Type 0} ⦃d : Double F⦄ where
  open d use {of_ℕ, literal, neg, mul, div, lt}

  pub not_running : ProcessMetrics F
  not_running = record {
    pid = negsuc 0;
    name = [];
    cmdline = [];
    state = b'?';
    rss_kib = 0;
    virt_kib = 0;
    num_threads = 0;
    cpu_percent = of_ℕ 0;
    is_running = false;
  }

  -- `std::chrono::duration<double>(now - prev_time).count()`
  pub seconds_between : ℕ → ℕ → F
  seconds_between prev now =
      div (if ltb now prev then neg (of_ℕ (prev - now)) else of_ℕ (now - prev)) (of_ℕ (10 ^ 9))

  -- The CPU share since the previous sample, and the monitor with the new one kept.
  pub account : ℕ → ℕ → ProcessMonitor → F × ProcessMonitor
  unfolding seconds_between
  account ticks now m =
      let dt = seconds_between m.prev_time now in
      let dticks = sub64 ticks m.prev_ticks in
      if m.first_sample
      then (of_ℕ 0, record m { prev_ticks = ticks; prev_time = now; first_sample = false })
      else if lt (literal 1 3) dt
      then (
        mul (div (div (of_ℕ dticks) (of_ℕ m.clk_tck)) dt) (of_ℕ 100),
        record m { prev_ticks = ticks; prev_time = now },
      )
      else (of_ℕ 0, m)

  -- The sample of a located process, of which `stat` has been read.
  pub sample_located :
      ProcEntry
      → ℕ
      → ProcessMonitor
      → StatResult
      → Option (Bool × ProcessMetrics F × ProcessMonitor)
  unfolding account reset
  sample_located p now m unreadable = some (false, not_running, reset m)
  sample_located p now m out_of_range = none
  sample_located p now m (stat state ticks) =
      let (rss, virt, status_threads) = read_status_memory p.status in
      let (cpu_pct, m') = account ticks now m in
      some (
        true,
        record {
          pid = m.cached_pid;
          name = read_comm p.comm;
          cmdline = read_cmdline p.cmdline;
          state = state;
          rss_kib = rss;
          virt_kib = virt;
          num_threads = if status_threads == 0 then count_tasks p.task else status_threads;
          cpu_percent = cpu_pct;
          is_running = true;
        },
        m',
      )

  -- The result, the metrics and the monitor; none where `std::string::substr` throws.
  pub sample : ℤ → Proc → ℕ → ProcessMonitor → Option (Bool × ProcessMetrics F × ProcessMonitor)
  unfolding locate sample_located
  sample self proc now m = elim (locate self proc m) [
    | none ↦ some (false, not_running, m)
    | some m' ↦ let p = proc.entry m'.cached_pid in sample_located p now m' (read_stat p.stat_file)
  ]
