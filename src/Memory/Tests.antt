-- ===== src/Memory/Tests.antt =====
-- A sample of the memory, and its theorem at a concrete file.
use smooth_demon.Prelude.{◌≡◌, refl, true, false, some}
use smooth_demon.Double.Fixed.{Fixed, fixed_double}
use smooth_demon.Text.{
  Text, codes, lines, starts_with, after_first, skip_while, is_space, is_digit, is_empty,
}
use smooth_demon.Text.Decimal.{value_from}
use smooth_demon.Text.Number.{scan_u64, scan_number, take_while, take_sign}
use smooth_demon.Memory.{
  no_metrics, sample, read_lines, read_line, store_field, find_field, number_of, finish,
  get_used_ram_kib,
}
use smooth_demon.Memory.Usage.{IsConsistent, sample-IsConsistent}

abbrev meminfo : Text
meminfo = codes "MemTotal:  8000 kB\nMemFree: 100 kB\nMemAvailable: 2000 kB\nSwapTotal: 0 kB\n"

uses : get_used_ram_kib (sample {F = Fixed} (some meminfo) no_metrics).1 ≡ 6000
unfolding get_used_ram_kib sample read_lines read_line store_field find_field number_of finish lines
    starts_with after_first skip_while is_space is_digit is_empty value_from scan_u64 scan_number
    take_while take_sign no_metrics
uses = refl

sample-IsConsistent_example :
    ((sample {F = Fixed} (some meminfo) no_metrics).0 ≡ true
      → IsConsistent Fixed (sample {F = Fixed} (some meminfo) no_metrics).1)
    × ((sample {F = Fixed} (some meminfo) no_metrics).0 ≡ false
        → (sample {F = Fixed} (some meminfo) no_metrics).1 ≡ no_metrics)
sample-IsConsistent_example = sample-IsConsistent Fixed (some meminfo) no_metrics
