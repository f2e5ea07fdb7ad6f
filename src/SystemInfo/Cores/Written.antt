-- ===== src/SystemInfo/Cores/Written.antt =====
-- A processor as the kernel writes it to /proc/cpuinfo is read back.
use smooth_demon.Prelude.{
  ℕ, ◌^◌, ◌<◌, ◌≡◌, refl, ap, ◌∙◌, true, false, List, [], ◌∷◌, ◌++◌, some, arith, All, All-imp,
  All-append, not, ◌==◌, Option-cases, inl, inr,
}
use mathlib.Core.List.{append-nil, append_assoc}
use smooth_demon.Prelude.Int.{pos, negsuc}
use smooth_demon.Text.{Text, codes, after_first, text_eq, is_empty, is_digit, skip_while}
use smooth_demon.Text.Decimal.{show, show_lem, show-cons}
use smooth_demon.Text.Number.{take_while, scan_int, scan_number-show, trim_end}
use smooth_demon.Text.Lines.{OneLine, trim_end-none}
use smooth_demon.SystemInfo.Strings.{trim, is_margin}
use smooth_demon.SystemInfo.Cores.{
  CoreSet, insert_core, Scan, flush, set_key, stoi_or, read_line, read_lines,
}

-- What stands in /proc/cpuinfo of a processor: its two ids, and the other lines before, between
-- and behind them.
pub record Processor : Type 0 where
  pub before : List Text
  pub physical : ℕ
  pub amid : List Text
  pub core : ℕ
  pub after : List Text

abbrev core_part : Processor → List Text
core_part p = (codes "core id\t\t: " ++ show p.core) ∷ p.after ++ [] ∷ []

abbrev physical_part : Processor → List Text
physical_part p = (codes "physical id\t: " ++ show p.physical) ∷ p.amid ++ core_part p

abbrev pub block : Processor → List Text
block p = p.before ++ physical_part p

-- The name in front of the colon.
abbrev pub name_of : Text → Text
name_of line = trim (take_while (λ c. not (c == b':')) line)

-- A line, not blank, with another name than those of the two ids.
abbrev pub IsOther : Text → Type 0
IsOther line =
    OneLine line
    × (is_empty line ≡ false)
    × (text_eq (name_of line) (codes "physical id") ≡ false)
    × (text_eq (name_of line) (codes "core id") ≡ false)

-- The ids fit an `int`, and the other lines have other names.
pub record IsListed (p : Processor) : Type 0 where
  pub physical_lt : p.physical < 2 ^ 31
  pub core_lt : p.core < 2 ^ 31
  pub before_other : All IsOther p.before
  pub amid_other : All IsOther p.amid
  pub after_other : All IsOther p.after

unfoldable pub cpuinfo_lines : List Processor → List Text
cpuinfo_lines [] = []
cpuinfo_lines (p ∷ ps) = block p ++ cpuinfo_lines ps

margin-digit : (c : ℕ) → is_digit c ≡ true → is_margin c ≡ false
unfolding is_digit
margin-digit c h = ground arith

skip_while-show : (n : ℕ) → skip_while is_margin (show n) ≡ show n
unfolding skip_while
skip_while-show n = let (c, s, e, d) = show-cons n in rw e (ground (arith, margin-digit c d))

trim-show : (n : ℕ) → trim (b' ' ∷ show n) ≡ show n
unfolding trim
trim-show n =
    ap (trim_end is_margin) (skip_while-show n)
    ∙ trim_end-none is_margin (show n) (All-imp _ _ (show n) margin-digit (show_lem n).1)

scan_int-show : (n : ℕ) → n < 2 ^ 31 → scan_int 32 (show n) ≡ some (pos n)
unfolding scan_int
scan_int-show n h =
    let e = rw append-nil at (scan_number-show [] n [] tt tt) in rw (e, scan_int) (ground arith)

keys :
    (trim (codes "physical id\t") ≡ codes "physical id")
    × (trim (codes "core id\t\t") ≡ codes "core id")
unfolding trim
keys = (refl, refl)

read_line-other : (line : Text) (s : Scan) → IsOther line → read_line line s ≡ s
unfolding read_line set_key is_empty
read_line-other [] s h = ground (arith, h.1)
read_line-other (c ∷ line) s h = elim (Option-cases (after_first b':' (c ∷ line))) [
  | inl absent ↦ rw (absent, read_line) refl
  | inr (val, found) ↦ rw (found, h.2, h.3, read_line, set_key) refl
]

read_lines-other :
    (ls rest : List Text) (s : Scan)
    → All IsOther ls
    → read_lines (ls ++ rest) s ≡ read_lines rest s
unfolding read_lines
read_lines-other [] rest s h = refl
read_lines-other (l ∷ ls) rest s h =
    ap (read_lines (ls ++ rest)) (read_line-other l s h.0) ∙ read_lines-other ls rest s h.1

read_line-physical :
    (n : ℕ) (s : Scan)
    → n < 2 ^ 31
    → read_line (codes "physical id\t: " ++ show n) s ≡ record s { physical_id = pos n }
unfolding read_line after_first take_while text_eq stoi_or
read_line-physical n s h = rw (keys.0, trim-show n, set_key, stoi_or, scan_int-show n h)

read_line-core :
    (n : ℕ) (s : Scan)
    → n < 2 ^ 31
    → read_line (codes "core id\t\t: " ++ show n) s ≡ record s { core_id = pos n }
unfolding read_line after_first take_while text_eq stoi_or
read_line-core n s h = rw (keys.1, trim-show n, set_key, stoi_or, scan_int-show n h)

flush-read_line :
    (n m : ℕ) (cores : CoreSet)
    → read_line [] (record { cores = cores; physical_id = pos n; core_id = pos m }) ≡ record {
      cores = insert_core (pos n) (pos m) cores;
      physical_id = negsuc 0;
      core_id = negsuc 0;
    }
unfolding read_line flush
flush-read_line n m cores = ground arith

read_lines-physical :
    (p : Processor) (rest : List Text) (s : Scan)
    → IsListed p
    → read_lines (physical_part p ++ rest) s
      ≡ read_lines (core_part p ++ rest) (record s { physical_id = pos p.physical })
unfolding read_lines
read_lines-physical p rest s h =
    let t : Scan = record s { physical_id = pos p.physical } in
    ap (read_lines ((p.amid ++ core_part p) ++ rest))
      (read_line-physical p.physical s h.physical_lt)
    ∙ ap (λ (ls : List Text). read_lines ls t) (append_assoc p.amid (core_part p) rest)
    ∙ read_lines-other p.amid (core_part p ++ rest) t h.amid_other

read_lines-core :
    (p : Processor) (rest : List Text) (s : Scan)
    → IsListed p
    → read_lines (core_part p ++ rest) s
      ≡ read_lines rest (read_line [] (record s { core_id = pos p.core }))
unfolding read_lines
read_lines-core p rest s h =
    let t : Scan = record s { core_id = pos p.core } in
    ap (read_lines ((p.after ++ [] ∷ []) ++ rest)) (read_line-core p.core s h.core_lt)
    ∙ ap (λ (ls : List Text). read_lines ls t) (append_assoc p.after ([] ∷ []) rest)
    ∙ read_lines-other p.after ([] ∷ rest) t h.after_other

pub read_lines-block :
    (p : Processor) (rest : List Text) (cores : CoreSet)
    → IsListed p
    → read_lines
        (block p ++ rest)
        (record { cores = cores; physical_id = negsuc 0; core_id = negsuc 0 })
      ≡ read_lines rest (record {
        cores = insert_core (pos p.physical) (pos p.core) cores;
        physical_id = negsuc 0;
        core_id = negsuc 0;
      })
read_lines-block p rest cores h =
    let s : Scan = record { cores = cores; physical_id = negsuc 0; core_id = negsuc 0 } in
    let t : Scan = record s { physical_id = pos p.physical } in
    ap (λ (ls : List Text). read_lines ls s) (append_assoc p.before (physical_part p) rest)
    ∙ read_lines-other p.before (physical_part p ++ rest) s h.before_other
    ∙ read_lines-physical p rest s h
    ∙ read_lines-core p rest t h
    ∙ ap (read_lines rest) (flush-read_line p.physical p.core cores)

OneLine-show : (n : ℕ) → OneLine (show n)
unfolding is_digit
OneLine-show n = All-imp (λ c. is_digit c ≡ true) _ (show n) (λ c h. ground arith) (show_lem n).1

OneLine-others : (ls : List Text) → All IsOther ls → All OneLine ls
OneLine-others ls h = All-imp IsOther OneLine ls (λ l o. o.0) h

pub OneLine-block : (p : Processor) → IsListed p → All OneLine (block p)
OneLine-block p h =
    let physical : OneLine (codes "physical id\t: " ++ show p.physical) =
      ground (arith, OneLine-show p.physical) in
    let core : OneLine (codes "core id\t\t: " ++ show p.core) =
      ground (arith, OneLine-show p.core) in
    All-append OneLine p.before (physical_part p) (OneLine-others p.before h.before_other) (
      physical,
      All-append OneLine p.amid (core_part p) (OneLine-others p.amid h.amid_other) (
        core,
        All-append OneLine p.after ([] ∷ []) (OneLine-others p.after h.after_other) (tt, tt),
      ),
    )
