-- ===== src/SystemInfo/Tests.antt =====
-- The system information at concrete inputs.
use smooth_demon.Prelude.{ℕ, ◌≡◌, ◌<◌, ◌^◌, All, refl, List, [], ◌∷◌, none, some, arith, length}
use smooth_demon.Text.{
  codes, lines, starts_with, after_first, text_eq, is_empty, is_space, is_digit, skip_while,
}
use smooth_demon.Text.Decimal.{show}
use smooth_demon.Text.Number.{take_while}
use smooth_demon.Text.Lines.{unlines}
use smooth_demon.SystemInfo.Strings.{trim, strip_quotes, is_card_dir_name}
use smooth_demon.SystemInfo.Release.{parse_os_name, parse_cpu_model}
use smooth_demon.SystemInfo.Graphics.{Card, parse_gpu_info, first_card, describe_card, normalize}
use smooth_demon.SystemInfo.Session.{compositor_of}
use smooth_demon.SystemInfo.Cores.{parse_cpu_physical_cores}
use smooth_demon.SystemInfo.Cores.Written.{Processor, IsListed, cpuinfo_lines}
use smooth_demon.SystemInfo.Cores.Count.{distinct_cores, parse_cpu_physical_cores-distinct}
use smooth_demon.SystemInfo.Uptime.{format_uptime, uptime_text}
use smooth_demon.SystemInfo.Uptime.Format.{read_uptime, read_uptime-format_uptime}

names_system :
    parse_os_name none (some (codes "ID=arch\nPRETTY_NAME=\"Arch Linux\"\n")) ≡ codes "Arch Linux"
unfolding parse_os_name lines starts_with strip_quotes
names_system = refl

names_processor :
    parse_cpu_model (some (codes "processor\t: 0\nmodel name\t: Pentium  4415U \n"))
    ≡ codes "Pentium  4415U"
unfolding parse_cpu_model lines starts_with after_first trim
names_processor = refl

abbrev card : Card
card = record {
  name = codes "card1";
  vendor = some (codes "0x8086\n");
  device = some (codes "0x591B\n");
}

names_card :
    parse_gpu_info (some (record card { name = codes "card1-DP-1" } ∷ card ∷ []))
    ≡ (codes "Intel HD Graphics 620 (Kaby Lake GT2)", codes "8086:591b")
unfolding parse_gpu_info first_card describe_card normalize is_card_dir_name take_while skip_while
    is_space is_digit starts_with text_eq is_empty
names_card = refl

falls_back : compositor_of (λ v. none) ≡ codes "Unknown"
unfolding compositor_of
falls_back = refl

-- A processor with some of the other lines that the kernel writes.
abbrev processor : ℕ → ℕ → Processor
processor physical core = record {
  before =
      codes "model name\t: Intel(R) Pentium(R) CPU 4415U @ 2.30GHz"
      ∷ codes "cpu MHz\t\t: 2300.000"
      ∷ [];
  physical = physical;
  amid = codes "siblings\t: 4" ∷ [];
  core = core;
  after = codes "cpu cores\t: 2" ∷ codes "power management:" ∷ [];
}

-- Two threads of one core, and a core of another package.
abbrev processors : List Processor
processors = processor 0 1 ∷ processor 0 1 ∷ processor 1 1 ∷ []

counts_two : distinct_cores processors ≡ 2
unfolding distinct_cores
counts_two = refl

listed :
    (physical core : ℕ) → physical < 2 ^ 31 → core < 2 ^ 31 → IsListed (processor physical core)
unfolding trim text_eq is_empty take_while skip_while show
listed physical core h k = record {
  physical_lt = h;
  core_lt = k;
  before_other = ((ground arith, refl, refl, refl), ((ground arith, refl, refl, refl), tt));
  amid_other = ((ground arith, refl, refl, refl), tt);
  after_other = ((ground arith, refl, refl, refl), ((ground arith, refl, refl, refl), tt));
}

processors-IsListed : All IsListed processors
processors-IsListed =
    let first = listed 0 1 (omega arith) (omega arith) in
    (first, (first, (listed 1 1 (omega arith) (omega arith), tt)))

parse_cpu_physical_cores-distinct_example :
    parse_cpu_physical_cores (some (unlines (cpuinfo_lines processors))) ≡ 2
unfolding distinct_cores
parse_cpu_physical_cores-distinct_example =
    parse_cpu_physical_cores-distinct processors (omega arith) processors-IsListed

shows_uptime : format_uptime 93_784 ≡ codes "1d 02h:03m:04s"
unfolding format_uptime show
shows_uptime = refl

read_uptime-format_uptime_example :
    (format_uptime 93_784 ≡ uptime_text 93_784)
    × (length (format_uptime 93_784) < 64)
    × (read_uptime (format_uptime 93_784) ≡ some 93_784)
read_uptime-format_uptime_example = read_uptime-format_uptime 93_784 (omega arith)
