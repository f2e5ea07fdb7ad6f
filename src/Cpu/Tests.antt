-- ===== src/Cpu/Tests.antt =====
-- Runs of the CPU monitor, and its theorems at concrete inputs.
use smooth_demon.Prelude.{◌≡◌, refl, true, false, [], ◌∷◌, ◌++◌, none, some, arith, length}
use smooth_demon.Prelude.Int.{pos, negsuc}
use smooth_demon.Double.Partial.{Partial, partial_double, Partial-IsOrdered, Partial-IsArithmetic}
use smooth_demon.Double.Fixed.{Fixed, fixed_double, Fixed-IsOrdered, Fixed-IsArithmetic}
use smooth_demon.Text.{Text, codes, lines, is_digit, starts_with, skip_while}
use smooth_demon.Text.Decimal.{show}
use smooth_demon.Cpu.{
  CpuSample, CpuMonitor, Scan, no_sample, no_metrics, get_total_ticks, calculate_delta,
  calculate_metrics, cpu_monitor, sample, scan_line, scan_lines, scan_core, cpu_line, store_scan,
  start_scan, parse_eight, parse_u64, number_or, digits_from, is_blank, clamp_pct,
}
use smooth_demon.Cpu.Delta.{
  InRange, calculate_metrics-InRange, calculate_delta-IsWord, no_metrics-InRange,
}
use smooth_demon.Cpu.Parse.{fields, parse_eight-fields, scan_line-core}
use smooth_demon.Cpu.Sampling.{IsValid, sample-IsValid}
use smooth_demon.Cpu.Repeat.{AllIdle, sample_twice}

abbrev stat_text : Text
stat_text =
    codes
      "cpu  10 0 20 60 10 0 0 0 0 0\ncpu0 5 0 10 30 5 0 0 0\ncpu7 1 1 1 1 1 1 1 1\nintr 5\ncpu1 9"

abbrev later_text : Text
later_text = codes "cpu  20 0 40 110 30 0 0 0 0 0\ncpu0 10 0 30 50 10 0 0 0\n"

abbrev fresh : CpuMonitor Fixed
fresh = record {
  first_sample = true;
  prev_aggregate = no_sample;
  prev_cores = no_sample ∷ no_sample ∷ [];
  curr_aggregate = no_metrics;
  curr_cores = no_metrics ∷ no_metrics ∷ [];
}

abbrev ticks_a : CpuSample
ticks_a = record {
  user = 10;
  nice = 0;
  system = 20;
  idle = 60;
  iowait = 10;
  irq = 0;
  softirq = 0;
  steal = 0;
}

abbrev core_a : CpuSample
core_a = record {
  user = 5;
  nice = 0;
  system = 10;
  idle = 30;
  iowait = 5;
  irq = 0;
  softirq = 0;
  steal = 0;
}

constructs : cpu_monitor {F = Fixed} (pos 2) ≡ fresh
unfolding cpu_monitor
constructs = refl

constructs_one_core : length (cpu_monitor {F = Fixed} (negsuc 0)).prev_cores ≡ 1
unfolding cpu_monitor
constructs_one_core = refl

-- The core that is out of range and the lines behind the first other line are passed over.
scans : scan_lines (lines stat_text) (start_scan fresh) ≡ record {
  aggregate_curr = ticks_a;
  core_curr = core_a ∷ no_sample ∷ [];
  aggregate_seen = true;
}
unfolding scan_lines scan_line scan_core cpu_line start_scan parse_eight parse_u64 number_or
    digits_from is_blank lines is_digit starts_with skip_while
scans = refl

-- 70 of 100 ticks are idle time.
percentages : calculate_metrics {F = Fixed} ticks_a ≡ record {
  total_percent = pos 30_000_000;
  user_percent = pos 10_000_000;
  system_percent = pos 20_000_000;
  iowait_percent = pos 10_000_000;
}
unfolding calculate_metrics get_total_ticks clamp_pct
percentages = refl

fresh-IsValid : IsValid Fixed-IsOrdered 2 fresh
fresh-IsValid =
    let zeros = no_metrics-InRange Fixed-IsOrdered Fixed-IsArithmetic in
    record { samples = refl; entries = refl; aggregate_in = zeros; cores_in = (zeros, (zeros, tt)) }

-- What a total of 0 would divide by.
no_quotient : partial_double.div (partial_double.of_ℕ 0) (partial_double.of_ℕ 0) ≡ none
no_quotient = refl

calculate_metrics-InRange_example :
    InRange {F = Partial} Partial-IsOrdered (calculate_metrics (calculate_delta ticks_a core_a))
calculate_metrics-InRange_example =
    calculate_metrics-InRange Partial-IsOrdered Partial-IsArithmetic
      (calculate_delta ticks_a core_a) (calculate_delta-IsWord ticks_a core_a)

parse_eight-fields_example : parse_eight (fields ticks_a (codes " 0 0")) core_a ≡ ticks_a
unfolding is_digit
parse_eight-fields_example = parse_eight-fields ticks_a core_a (codes " 0 0") (omega arith) refl

abbrev scan_start : Scan
scan_start = record {
  aggregate_curr = no_sample;
  core_curr = no_sample ∷ core_a ∷ [];
  aggregate_seen = false;
}

scan_line-core_example : scan_line (show 1 ++ fields ticks_a []) scan_start ≡ record {
  aggregate_curr = no_sample;
  core_curr = no_sample ∷ ticks_a ∷ [];
  aggregate_seen = false;
}
scan_line-core_example = scan_line-core 1 ticks_a [] scan_start (omega arith) (omega arith) tt

sample-IsValid_example : IsValid Fixed-IsOrdered 2 (sample (some stat_text) fresh).1
sample-IsValid_example =
    sample-IsValid Fixed-IsOrdered Fixed-IsArithmetic 2 fresh (some stat_text) fresh-IsValid

succeeds : (sample (some stat_text) fresh).0 ≡ true
unfolding sample store_scan scan_lines scan_line scan_core cpu_line start_scan parse_eight parse_u64
    number_or digits_from is_blank lines is_digit starts_with skip_while
succeeds = refl

sample_twice_example :
    ((sample (some stat_text) (sample (some stat_text) fresh).1).0 ≡ true)
    × AllIdle (sample (some stat_text) (sample (some stat_text) fresh).1).1
sample_twice_example = sample_twice fresh (some stat_text) succeeds
