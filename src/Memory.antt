-- ===== src/Memory.antt =====
-- `MemoryMonitor` of src/memory.cpp and include/memory.hpp. /proc/meminfo is an argument of
-- `sample`.
pub mod Usage
mod Tests
use smooth_demon.Prelude.{
  ℕ, zero, suc, ◌+◌, ◌-◌, Bool, true, false, ◌&&◌, List, [], ◌∷◌, Option, none, some, ltb, leb,
  ◌==◌, if◌then◌else◌,
}
use smooth_demon.Double.{Double}
use smooth_demon.Text.{Text, File, codes, lines, starts_with, after_first}
use smooth_demon.Text.Number.{scan_u64}

pub record MemoryMetrics (F : Type 0) : Type 0 where
  pub total_kib : ℕ
  pub free_kib : ℕ
  pub available_kib : ℕ
  pub buffers_kib : ℕ
  pub cached_kib : ℕ
  pub swap_total_kib : ℕ
  pub swap_free_kib : ℕ
  pub ram_used_percent : F
  pub swap_used_percent : F

-- The fields that the loop reads.
pub data Field : Type 0 where
  mem_total mem_free mem_available buffers cached swap_total swap_free : Field

abbrev field_names : List (Text × Field)
field_names =
    (codes "MemTotal:", mem_total)
    ∷ (codes "MemFree:", mem_free)
    ∷ (codes "MemAvailable:", mem_available)
    ∷ (codes "Buffers:", buffers)
    ∷ (codes "Cached:", cached)
    ∷ (codes "SwapTotal:", swap_total)
    ∷ (codes "SwapFree:", swap_free)
    ∷ []

-- The values read so far, and `fields_found`.
pub record Reading : Type 0 where
  pub total : ℕ
  pub free : ℕ
  pub available : ℕ
  pub buffers_size : ℕ
  pub cached_size : ℕ
  pub swap : ℕ
  pub swap_left : ℕ
  pub fields_found : ℕ

abbrev pub no_reading : Reading
no_reading = record {
  total = 0;
  free = 0;
  available = 0;
  buffers_size = 0;
  cached_size = 0;
  swap = 0;
  swap_left = 0;
  fields_found = 0;
}

pub store_field : Field → ℕ → Reading → Reading
store_field mem_total v r = record r { total = v; fields_found = r.fields_found + 1 }
store_field mem_free v r = record r { free = v; fields_found = r.fields_found + 1 }
store_field mem_available v r = record r { available = v; fields_found = r.fields_found + 1 }
store_field buffers v r = record r { buffers_size = v; fields_found = r.fields_found + 1 }
store_field cached v r = record r { cached_size = v; fields_found = r.fields_found + 1 }
store_field swap_total v r = record r { swap = v; fields_found = r.fields_found + 1 }
store_field swap_free v r = record r { swap_left = v; fields_found = r.fields_found + 1 }

-- The first name that starts the line, with the text behind its colon.
find_field : List (Text × Field) → Text → Option Field
find_field [] line = none
find_field (n ∷ names) line =
    let rest = find_field names line in if starts_with n.0 line then some n.1 else rest

-- The number behind the colon, if there is one.
number_of : Text → Option ℕ
number_of line = elim (after_first b':' line) [ none ↦ none | some t ↦ scan_u64 t ]

read_line : Text → Reading → Reading
unfolding store_field find_field number_of
read_line line r = elim (find_field field_names line) [
  | none ↦ r
  | some f ↦ elim (number_of line) [ none ↦ r | some v ↦ store_field f v r ]
]

pub read_lines : List Text → Reading → Reading
unfolding read_line
read_lines [] r = r
read_lines (line ∷ ls) r =
    let r' = read_line line r in
    let rest = read_lines ls r' in if leb 7 r'.fields_found then r' else rest

module _ {F : Type 0} ⦃d : Double F⦄ where
  open d use {of_ℕ, mul, div}

  abbrev pub percent_of : ℕ → ℕ → F
  percent_of used total = mul (div (of_ℕ used) (of_ℕ total)) (of_ℕ 100)

  -- The code behind the loop, where the total is not 0.
  pub finish : Reading → MemoryMetrics F
  finish r =
      let available = if ltb r.total r.available then r.total else r.available in
      let swap_left = if ltb r.swap r.swap_left && ltb 0 r.swap then r.swap else r.swap_left in
      record {
        total_kib = r.total;
        free_kib = r.free;
        available_kib = available;
        buffers_kib = r.buffers_size;
        cached_kib = r.cached_size;
        swap_total_kib = r.swap;
        swap_free_kib = swap_left;
        ram_used_percent = percent_of (r.total - available) r.total;
        swap_used_percent = if ltb 0 r.swap then percent_of (r.swap - swap_left) r.swap else of_ℕ 0;
      }

  -- A new monitor.
  pub no_metrics : MemoryMetrics F
  no_metrics = record {
    total_kib = 0;
    free_kib = 0;
    available_kib = 0;
    buffers_kib = 0;
    cached_kib = 0;
    swap_total_kib = 0;
    swap_free_kib = 0;
    ram_used_percent = of_ℕ 0;
    swap_used_percent = of_ℕ 0;
  }

  -- The result and the metrics kept.
  pub sample : File → MemoryMetrics F → Bool × MemoryMetrics F
  unfolding read_lines finish
  sample none m = (false, m)
  sample (some text) m =
      let r = read_lines (lines text) no_reading in
      if r.total == 0 then (false, m) else (true, finish r)

pub get_used_ram_kib : {F : Type 0} → MemoryMetrics F → ℕ
get_used_ram_kib m = if ltb m.available_kib m.total_kib then m.total_kib - m.available_kib else 0

pub get_used_swap_kib : {F : Type 0} → MemoryMetrics F → ℕ
get_used_swap_kib m =
    if ltb m.swap_free_kib m.swap_total_kib then m.swap_total_kib - m.swap_free_kib else 0
