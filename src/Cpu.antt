-- ===== src/Cpu.antt =====
-- `CpuMonitor` of src/cpu.cpp and include/cpu.hpp. /proc/stat is an argument of `sample`.
pub mod Parse
pub mod Delta
pub mod Sampling
pub mod Repeat
mod Tests
use smooth_demon.Prelude.{
  ℕ, zero, suc, ◌+◌, ◌-◌, ◌*◌, ◌%◌, ◌^◌, Bool, true, false, not, ◌&&◌, ◌||◌, List, [], ◌∷◌, map,
  Option, none, some, ltb, leb, ◌==◌, if◌then◌else◌, length, drop, get_or, set, replicate,
}
use smooth_demon.Prelude.Int.{ℤ, pos, ltb_ℤ, to_u64}
use smooth_demon.Prelude.Words.{add64, sub64, mul64}
use smooth_demon.Double.{Double}
use smooth_demon.Text.{Text, File, codes, is_digit, starts_with, lines, skip_while}

pub record CpuSample : Type 0 where
  pub user : ℕ
  pub nice : ℕ
  pub system : ℕ
  pub idle : ℕ
  pub iowait : ℕ
  pub irq : ℕ
  pub softirq : ℕ
  pub steal : ℕ

abbrev pub no_sample : CpuSample
no_sample = record {
  user = 0;
  nice = 0;
  system = 0;
  idle = 0;
  iowait = 0;
  irq = 0;
  softirq = 0;
  steal = 0;
}

pub record CpuMetrics (F : Type 0) : Type 0 where
  pub total_percent : F
  pub user_percent : F
  pub system_percent : F
  pub iowait_percent : F

pub record CpuMonitor (F : Type 0) : Type 0 where
  pub first_sample : Bool
  pub prev_aggregate : CpuSample
  pub prev_cores : List CpuSample
  pub curr_aggregate : CpuMetrics F
  pub curr_cores : List (CpuMetrics F)

pub get_total_ticks : CpuSample → ℕ
get_total_ticks s =
    add64
      (add64 (add64 (add64 (add64 (add64 (add64 s.user s.nice) s.system) s.idle) s.iowait) s.irq)
        s.softirq)
      s.steal

pub calculate_delta : CpuSample → CpuSample → CpuSample
calculate_delta prev curr = record {
  user = sub64 curr.user prev.user;
  nice = sub64 curr.nice prev.nice;
  system = sub64 curr.system prev.system;
  idle = sub64 curr.idle prev.idle;
  iowait = sub64 curr.iowait prev.iowait;
  irq = sub64 curr.irq prev.irq;
  softirq = sub64 curr.softirq prev.softirq;
  steal = sub64 curr.steal prev.steal;
}

-- `*p == ' ' || *p == '\t'`. The end of a text is the NUL byte, which is no blank and no digit.
pub is_blank : ℕ → Bool
is_blank c = c == b' ' || c == 9

-- The loop over the digits, in 64 bits.
pub digits_from : ℕ → Text → ℕ × Text
digits_from v [] = (v, [])
digits_from v (c ∷ s) =
    let rest = digits_from (add64 (mul64 v 10) (c - b'0')) s in
    if is_digit c then rest else (v, c ∷ s)

-- `if (any) out = v;` behind the loop.
pub number_or : ℕ → Text → ℕ × Text
number_or out [] = (out, [])
number_or out (c ∷ s) = if is_digit c then digits_from 0 (c ∷ s) else (out, c ∷ s)

-- `parse_u64(p, out)`: `out` keeps its old value where no digit stands.
pub parse_u64 : Text → ℕ → ℕ × Text
parse_u64 p out = number_or out (skip_while is_blank p)

pub parse_eight : Text → CpuSample → CpuSample
parse_eight p s =
    let (user, p1) = parse_u64 p s.user in
    let (nice, p2) = parse_u64 p1 s.nice in
    let (system, p3) = parse_u64 p2 s.system in
    let (idle, p4) = parse_u64 p3 s.idle in
    let (iowait, p5) = parse_u64 p4 s.iowait in
    let (irq, p6) = parse_u64 p5 s.irq in
    let (softirq, p7) = parse_u64 p6 s.softirq in
    let (steal, p8) = parse_u64 p7 s.steal in
    record {
      user = user;
      nice = nice;
      system = system;
      idle = idle;
      iowait = iowait;
      irq = irq;
      softirq = softirq;
      steal = steal;
    }

-- The variables of the loop over the lines.
pub record Scan : Type 0 where
  pub aggregate_curr : CpuSample
  pub core_curr : List CpuSample
  pub aggregate_seen : Bool

-- A line of one core, of which the index has been read; an index out of range is passed over.
pub scan_core : ℕ × Text → Scan → Scan
unfolding parse_eight
scan_core (idx, q) s =
    if ltb idx (length s.core_curr)
    then record s {
      core_curr = set s.core_curr idx (parse_eight q (get_or s.core_curr idx no_sample));
    }
    else s

-- One line that begins with "cpu", of which `p` is the rest.
pub scan_line : Text → Scan → Scan
unfolding parse_eight scan_core
scan_line [] s = s
scan_line (c ∷ p) s =
    if c == b' '
    then if s.aggregate_seen
      then s
      else record s { aggregate_curr = parse_eight (c ∷ p) s.aggregate_curr; aggregate_seen = true }
    else if is_digit c
    then scan_core (digits_from 0 (c ∷ p)) s
    else s

-- The text behind "cpu" in a line of at least four bytes.
pub cpu_line : Text → Option Text
cpu_line line =
    if ltb (length line) 4 || not (starts_with (codes "cpu") line) then none else some (drop 3 line)

-- The loop over the lines, which ends at the first that is not a "cpu" line.
pub scan_lines : List Text → Scan → Scan
unfolding cpu_line scan_line
scan_lines [] s = s
scan_lines (line ∷ rest) s = elim (cpu_line line) [
  | none ↦ s
  | some p ↦ scan_lines rest (scan_line p s)
]

module _ {F : Type 0} ⦃d : Double F⦄ where
  open d use {of_ℕ, sub, mul, div, lt}

  abbrev pub no_metrics : CpuMetrics F
  no_metrics = record {
    total_percent = of_ℕ 0;
    user_percent = of_ℕ 0;
    system_percent = of_ℕ 0;
    iowait_percent = of_ℕ 0;
  }

  pub clamp_pct : F → F
  clamp_pct v = if lt v (of_ℕ 0) then of_ℕ 0 else if lt (of_ℕ 100) v then of_ℕ 100 else v

  pub calculate_metrics : CpuSample → CpuMetrics F
  calculate_metrics delta =
      let total = get_total_ticks delta in
      let idle_time = add64 delta.idle delta.iowait in
      let inv = div (of_ℕ 100) (of_ℕ total) in
      if total == 0 then no_metrics else record {
        total_percent =
            clamp_pct (mul (sub (of_ℕ 1) (div (of_ℕ idle_time) (of_ℕ total))) (of_ℕ 100));
        user_percent = clamp_pct (mul (of_ℕ delta.user) inv);
        system_percent = clamp_pct (mul (of_ℕ delta.system) inv);
        iowait_percent = clamp_pct (mul (of_ℕ delta.iowait) inv);
      }

  -- The constructor, given what `sysconf(_SC_NPROCESSORS_ONLN)` returns.
  pub cpu_monitor : ℤ → CpuMonitor F
  cpu_monitor n =
      let count = to_u64 (if ltb_ℤ n (pos 1) then pos 1 else n) in
      record {
        first_sample = true;
        prev_aggregate = no_sample;
        prev_cores = replicate count no_sample;
        curr_aggregate = no_metrics;
        curr_cores = replicate count no_metrics;
      }

  -- Both core lists have the same length, the number of cores.
  pub core_metrics : List CpuSample → List CpuSample → List (CpuMetrics F)
  core_metrics (p ∷ prev) (c ∷ curr) =
      calculate_metrics (calculate_delta p c) ∷ core_metrics prev curr
  core_metrics _ _ = []

  -- What `sample` does with the scanned file.
  pub store_scan : CpuMonitor F → Scan → Bool × CpuMonitor F
  store_scan m s =
      if not s.aggregate_seen
      then (false, m)
      else if m.first_sample
      then (
        true,
        record {
          first_sample = false;
          prev_aggregate = s.aggregate_curr;
          prev_cores = s.core_curr;
          curr_aggregate = no_metrics;
          curr_cores = map (λ _. no_metrics) m.curr_cores;
        },
      )
      else (
        true,
        record m {
          curr_aggregate = calculate_metrics (calculate_delta m.prev_aggregate s.aggregate_curr);
          curr_cores = core_metrics m.prev_cores s.core_curr;
          prev_aggregate = s.aggregate_curr;
          prev_cores = s.core_curr;
        },
      )

  pub start_scan : CpuMonitor F → Scan
  start_scan m = record {
    aggregate_curr = no_sample;
    core_curr = replicate (length m.prev_cores) no_sample;
    aggregate_seen = false;
  }

  pub sample : File → CpuMonitor F → Bool × CpuMonitor F
  sample none m = (false, m)
  sample (some text) m = store_scan m (scan_lines (lines text) (start_scan m))
