-- ===== src/Cpu/Parse.antt =====
-- The number parser of cpu.cpp reads back what the kernel prints.
use smooth_demon.Prelude.{
  ℕ, ◌+◌, ◌-◌, ◌*◌, ◌^◌, ◌<◌, ◌≡◌, ◌∙◌, ap, refl, true, false, [], ◌∷◌, ◌++◌, arith, if◌then◌else◌,
  ltb, ◌==◌, length, get_or, set,
}
use smooth_demon.Prelude.Words.{add64, mul64}
use smooth_demon.Text.{Text, is_digit, skip_while}
use smooth_demon.Text.Decimal.{
  value_from, le-value_from, AllDigits, NoDigit, show, show_lem, show-cons,
}
use smooth_demon.Cpu.{
  CpuSample, no_sample, Scan, is_blank, digits_from, number_or, parse_u64, parse_eight, scan_core,
  scan_line,
}
use smooth_demon.Cpu.Delta.{IsWord}

skip_to_digit : (c : ℕ) (s : Text) → is_digit c ≡ true → skip_while is_blank (b' ' ∷ c ∷ s) ≡ c ∷ s
unfolding skip_while is_digit is_blank
skip_to_digit c s d = ground arith

digits_from-append :
    (acc : ℕ) (ds rest : Text)
    → AllDigits ds
    → NoDigit rest
    → value_from acc ds < 2 ^ 64
    → digits_from acc (ds ++ rest) ≡ (value_from acc ds, rest)
unfolding digits_from value_from
digits_from-append acc [] [] d n h = refl
digits_from-append acc [] (c ∷ rest) d n h = rw n
digits_from-append acc (c ∷ ds) rest (d, ds_digits) n h =
    let next = acc * 10 + (c - b'0') in
    let small = le-value_from next ds in
    let exact : add64 (mul64 acc 10) (c - b'0') ≡ next = omega arith in
    rw (d, exact) (digits_from-append next ds rest ds_digits n h)

-- A number behind a blank.
abbrev pub field : ℕ → Text → Text
field n rest = b' ' ∷ (show n ++ rest)

number_or-show :
    (n out : ℕ) (rest : Text) (c : ℕ) (s : Text)
    → show n ≡ c ∷ s
    → is_digit c ≡ true
    → number_or out (show n ++ rest) ≡ digits_from 0 (show n ++ rest)
unfolding number_or
number_or-show n out rest c s e d = rw (e, d)

parse_u64-field :
    (n out : ℕ) (rest : Text) → n < 2 ^ 64 → NoDigit rest → parse_u64 (field n rest) out ≡ (n, rest)
unfolding parse_u64
parse_u64-field n out rest h no_digit =
    let (c, s, e, d) = show-cons n in
    let (same, digits) = show_lem n in
    let whole : digits_from 0 (show n ++ rest) ≡ (n, rest) =
      digits_from-append 0 (show n) rest digits no_digit (omega (arith, same))
      ∙ ap (λ (v : ℕ). (v, rest)) same in
    let skip : skip_while is_blank (field n rest) ≡ show n ++ rest =
      rw e (skip_to_digit c (s ++ rest) d) in
    ap (number_or out) skip ∙ number_or-show n out rest c s e d ∙ whole

-- The eight numbers of a line of /proc/stat, each behind a blank.
pub fields : CpuSample → Text → Text
fields s rest = field s.user (
    field s.nice (
      field s.system
        (field s.idle (field s.iowait (field s.irq (field s.softirq (field s.steal rest)))))))

-- `parse_eight` reads back every sample of 64-bit counters that is printed as the kernel does, with
-- a blank before each number, whatever the fields held before and whatever follows but a digit.
pub parse_eight-fields :
    (s old : CpuSample) (rest : Text)
    → IsWord s
    → NoDigit rest
    → parse_eight (fields s rest) old ≡ s
unfolding parse_eight fields is_digit
parse_eight-fields s old rest w n = rw (
  parse_u64-field s.user old.user _ w.user_lt refl,
  parse_u64-field s.nice old.nice _ w.nice_lt refl,
  parse_u64-field s.system old.system _ w.system_lt refl,
  parse_u64-field s.idle old.idle _ w.idle_lt refl,
  parse_u64-field s.iowait old.iowait _ w.iowait_lt refl,
  parse_u64-field s.irq old.irq _ w.irq_lt refl,
  parse_u64-field s.softirq old.softirq _ w.softirq_lt refl,
  parse_u64-field s.steal old.steal rest w.steal_lt n,
)

blank_no_digit : is_digit b' ' ≡ false
unfolding is_digit
blank_no_digit = refl

digit_not_space : (c : ℕ) → is_digit c ≡ true → (c == b' ') ≡ false
unfolding is_digit
digit_not_space c d = ground arith

scan_line-show :
    (i : ℕ) (tail : Text) (scan : Scan) (c : ℕ) (t : Text)
    → show i ≡ c ∷ t
    → is_digit c ≡ true
    → scan_line (show i ++ tail) scan ≡ scan_core (digits_from 0 (show i ++ tail)) scan
unfolding scan_line
scan_line-show i tail scan c t e d = rw (e, d, digit_not_space c d)

-- A line of core `i` sets the sample of that core alone, to what the kernel printed; a core that the
-- monitor does not know changes nothing.
pub scan_line-core :
    (i : ℕ) (s : CpuSample) (rest : Text) (scan : Scan)
    → i < 2 ^ 64
    → IsWord s
    → NoDigit rest
    → scan_line (show i ++ fields s rest) scan ≡ (
        if ltb i (length scan.core_curr)
        then record scan { core_curr = set scan.core_curr i s }
        else scan)
unfolding scan_core fields
scan_line-core i s rest scan h w n =
    let (c, t, e, d) = show-cons i in
    let (same, digits) = show_lem i in
    let tail = fields s rest in
    let whole : digits_from 0 (show i ++ tail) ≡ (i, tail) =
      digits_from-append 0 (show i) tail digits blank_no_digit (omega (arith, same))
      ∙ ap (λ (v : ℕ). (v, tail)) same in
    scan_line-show i tail scan c t e d
    ∙ ap (λ (r : ℕ × Text). scan_core r scan) whole
    ∙ ap
        (λ (v : CpuSample).
          if ltb i (length scan.core_curr)
          then record scan { core_curr = set scan.core_curr i v }
          else scan)
        (parse_eight-fields s (get_or scan.core_curr i no_sample) rest w n)
