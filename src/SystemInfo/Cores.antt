-- ===== src/SystemInfo/Cores.antt =====
-- The number of physical cores in /proc/cpuinfo.
pub mod Written
pub mod Count
use smooth_demon.Prelude.{
  ℕ, ◌%◌, ◌^◌, Bool, true, false, not, ◌&&◌, ◌||◌, List, [], ◌∷◌, Option, none, some, ◌==◌,
  if◌then◌else◌, length,
}
use smooth_demon.Prelude.Int.{ℤ, pos, negsuc, eq_ℤ, leb_ℤ}
use smooth_demon.Text.{Text, File, codes, lines, after_first, text_eq, is_empty}
use smooth_demon.Text.Number.{take_while, scan_int}
use smooth_demon.SystemInfo.Strings.{trim}

-- `std::set<std::pair<int, int>>`, as a list without repetitions.
abbrev pub CoreSet : Type 0
CoreSet = List (ℤ × ℤ)

pub has_core : ℤ → ℤ → CoreSet → Bool
has_core p c [] = false
has_core p c (x ∷ xs) = (eq_ℤ p x.0 && eq_ℤ c x.1) || has_core p c xs

pub insert_core : ℤ → ℤ → CoreSet → CoreSet
unfolding has_core
insert_core p c cores = if has_core p c cores then cores else (p, c) ∷ cores

-- The variables of the loop.
pub record Scan : Type 0 where
  pub cores : CoreSet
  pub physical_id : ℤ
  pub core_id : ℤ

pub flush : Scan → Scan
unfolding insert_core
flush s = record {
  cores =
      if leb_ℤ (pos 0) s.physical_id && leb_ℤ (pos 0) s.core_id
      then insert_core s.physical_id s.core_id s.cores
      else s.cores;
  physical_id = negsuc 0;
  core_id = negsuc 0;
}

-- `std::stoi`, or the old value where it throws.
stoi_or : ℤ → Text → ℤ
stoi_or old val = elim (scan_int 32 val) [ none ↦ old | some v ↦ v ]

pub set_key : Text → Text → Scan → Scan
unfolding stoi_or
set_key key val s =
    if text_eq key (codes "physical id")
    then record s { physical_id = stoi_or s.physical_id val }
    else if text_eq key (codes "core id")
    then record s { core_id = stoi_or s.core_id val }
    else s

pub read_line : Text → Scan → Scan
unfolding flush set_key
read_line [] s = flush s
read_line (c ∷ line) s = elim (after_first b':' (c ∷ line)) [
  | none ↦ s
  | some val ↦ set_key (trim (take_while (λ x. not (x == b':')) (c ∷ line))) (trim val) s
]

pub read_lines : List Text → Scan → Scan
unfolding read_line
read_lines [] s = s
read_lines (line ∷ ls) s = read_lines ls (read_line line s)

abbrev pub start : Scan
start = record { cores = []; physical_id = negsuc 0; core_id = negsuc 0 }

pub parse_cpu_physical_cores : File → ℕ
unfolding read_lines flush
parse_cpu_physical_cores none = 0
parse_cpu_physical_cores (some text) = length (flush (read_lines (lines text) start)).cores % 2 ^ 32
