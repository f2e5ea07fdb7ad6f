-- ===== src/Process/Files.antt =====
-- The files of one process under /proc, and how src/process.cpp reads them.
use smooth_demon.Prelude.{
  ℕ, zero, suc, ◌+◌, ◌-◌, ◌%◌, ◌^◌, min, Bool, false, ◌||◌, List, [], ◌∷◌, ◌++◌, map, Option, none,
  some, leb, ◌==◌, if◌then◌else◌, length, take, replicate,
}
use smooth_demon.Prelude.Int.{ℤ}
use smooth_demon.Prelude.Words.{add64}
use smooth_demon.Text.{Text, File, codes, lines, starts_with, after_first, after_last, is_digit}
use smooth_demon.Text.Decimal.{value}
use smooth_demon.Text.Number.{
  take_while, trim_end, first_line, to_i32, extract_u64, skip_word, scan_u64,
}

-- A process: `cmdline` has the offset that `tellg` gives at its end beside its content, and `task`
-- the names in its directory.
pub record ProcEntry : Type 0 where
  pub comm : File
  pub cmdline : Option (ℕ × Text)
  pub stat_file : File
  pub status : File
  pub task : Option (List Text)

-- /proc: the names in it, and the processes.
pub record Proc : Type 0 where
  pub names : Option (List Text)
  pub entry : ℤ → ProcEntry

abbrev is_trailing : ℕ → Bool
is_trailing c = c == 10 || c == 13 || c == b' ' || c == 9

unfoldable pub read_comm : File → Text
read_comm none = []
read_comm (some text) = trim_end is_trailing (first_line (lines text))

abbrev nul_to_space : ℕ → ℕ
nul_to_space c = if c == 0 then b' ' else c

-- `read` fills at most the `sz` bytes of the string, which `resize` has made NUL.
unfoldable pub read_cmdline : Option (ℕ × Text) → Text
read_cmdline none = []
read_cmdline (some (sz, content)) =
    let got = take sz content in
    trim_end (λ c. c == b' ') (map nul_to_space (got ++ replicate (sz - length got) 0))

-- `out_of_range` is the exception of `substr` past the end of the line.
pub data StatResult : Type 0 where
  unreadable out_of_range : StatResult
  stat : ℕ → ℕ → StatResult

unfoldable pub skip_words : ℕ → Text → Option Text
skip_words zero s = some s
skip_words (suc n) s = elim (skip_word s) [ none ↦ none | some t ↦ skip_words n t ]

-- The two tick counts that follow ten other fields, and their sum.
unfoldable pub read_ticks : Text → Option ℕ
unfolding skip_words
read_ticks s = elim (skip_words 10 s) [
  | none ↦ none
  | some t ↦ elim (extract_u64 t) [
    | none ↦ none
    | some u ↦ elim (extract_u64 u.1) [ none ↦ none | some v ↦ some (add64 u.0 v.0) ]
  ]
]

-- The text behind the last parenthesis.
unfoldable pub read_fields : Text → StatResult
unfolding read_ticks
read_fields (space ∷ state ∷ after ∷ rest) = elim (read_ticks rest) [
  | none ↦ unreadable
  | some ticks ↦ stat state ticks
]
read_fields (space ∷ state ∷ []) = out_of_range
read_fields _ = unreadable

unfoldable pub read_stat : File → StatResult
unfolding read_fields
read_stat none = unreadable
read_stat (some text) = elim (after_last b')' (first_line (lines text))) [
  | none ↦ unreadable
  | some t ↦ read_fields t
]

-- rss, virt, threads and the number of lines found.
abbrev Status : Type 0
Status = ℕ × ℕ × ℕ × ℕ

-- The number behind the colon, or the old value.
scan_or : ℕ → Text → ℕ
scan_or old line = elim (after_first b':' line) [
  | none ↦ old
  | some t ↦ elim (scan_u64 t) [ none ↦ old | some v ↦ v ]
]

status_line : Text → Status → Status
unfolding scan_or
status_line line (rss, virt, threads, found) =
    if starts_with (codes "VmRSS:") line
    then (scan_or rss line, virt, threads, found + 1)
    else if starts_with (codes "VmSize:") line
    then (rss, scan_or virt line, threads, found + 1)
    else if starts_with (codes "Threads:") line
    then (rss, virt, scan_or 0 line % 2 ^ 32, found + 1)
    else (rss, virt, threads, found)

status_lines : List Text → Status → Status
unfolding status_line
status_lines [] s = s
status_lines (line ∷ ls) s =
    let s' = status_line line s in let rest = status_lines ls s' in if leb 3 s'.3 then s' else rest

-- rss, virt and threads; 0 where the file cannot be read.
unfoldable pub read_status_memory : File → ℕ × ℕ × ℕ
unfolding status_lines
read_status_memory none = (0, 0, 0)
read_status_memory (some text) =
    let (rss, virt, threads, found) = status_lines (lines text) (0, 0, 0, 0) in (rss, virt, threads)

unfoldable pub starts_digit : Text → Bool
starts_digit [] = false
starts_digit (c ∷ s) = is_digit c

unfoldable pub count_names : List Text → ℕ
unfolding starts_digit
count_names [] = 0
count_names (name ∷ names) =
    let rest = count_names names in if starts_digit name then (rest + 1) % 2 ^ 32 else rest

unfoldable pub count_tasks : Option (List Text) → ℕ
unfolding count_names
count_tasks none = 0
count_tasks (some names) = count_names names

-- `std::atoi` of a name that starts with a digit.
unfoldable pub pid_of : Text → ℤ
pid_of name = to_i32 (min (value (take_while is_digit name)) (2 ^ 63 - 1))
