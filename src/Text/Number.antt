-- ===== src/Text/Number.antt =====
-- Reading a number at the start of a text: `std::strtol`, `std::stoi`, the `%llu` of `std::sscanf`
-- and `operator>>`, which all skip white space, take a sign and then the longest run of digits.
use smooth_demon.Prelude.{
  ℕ, ap, ◌∙◌, ◌-◌, ◌%◌, ◌^◌, ◌<◌, ◌≡◌, refl, Bool, true, false, not, ◌||◌, List, [], ◌∷◌, ◌++◌,
  Option, none, some, ltb, leb, ◌==◌, if◌then◌else◌, arith, All,
}
use smooth_demon.Prelude.Int.{ℤ, pos, negsuc, sub_ℕ}
use smooth_demon.Text.{Text, is_digit, is_space, is_empty, skip_while}
use smooth_demon.Text.Decimal.{value, AllDigits, NoDigit, show, show_lem, show-cons}

unfoldable pub take_while : (ℕ → Bool) → Text → Text
take_while p [] = []
take_while p (c ∷ s) = let rest = take_while p s in if p c then c ∷ rest else []

-- The loop that pops bytes off the end while `p` holds.
unfoldable pub trim_end : (ℕ → Bool) → Text → Text
trim_end p [] = []
trim_end p (c ∷ s) = elim (trim_end p s) [ [] ↦ if p c then [] else c ∷ [] | d ∷ t ↦ c ∷ d ∷ t ]

-- The sign, as "it is a minus", and the text behind it.
unfoldable pub take_sign : Text → Bool × Text
take_sign [] = (false, [])
take_sign (c ∷ s) =
    if c == b'-' then (true, s) else if c == b'+' then (false, s) else (false, c ∷ s)

-- What the first `std::getline` reads.
unfoldable pub first_line : List Text → Text
first_line [] = []
first_line (l ∷ ls) = l

-- `operator>>` into an unsigned 64-bit number, with the text behind it; none where it fails.
unfoldable pub extract_u64 : Text → Option (ℕ × Text)
unfolding take_while take_sign is_empty skip_while
extract_u64 s =
    let (minus, t) = take_sign (skip_while is_space s) in
    let d = take_while is_digit t in
    if is_empty d || leb (2 ^ 64) (value d)
    then none
    else some (if minus then (2 ^ 64 - value d) % 2 ^ 64 else value d, skip_while is_digit t)

-- `operator>>` into a string that is not used: the text behind the word.
unfoldable pub skip_word : Text → Option Text
unfolding skip_while is_empty
skip_word s =
    let t = skip_while is_space s in
    if is_empty t then none else some (skip_while (λ c. not (is_space c)) t)

-- The number at the start of the text, if there is one, with its sign.
unfoldable pub scan_number : Text → Option (Bool × ℕ)
unfolding take_while take_sign is_empty skip_while
scan_number s =
    let (minus, t) = take_sign (skip_while is_space s) in
    let d = take_while is_digit t in if is_empty d then none else some (minus, value d)

-- `%llu`: the largest value where the number does not fit, and the negative modulo 2^64.
unfoldable pub scan_u64 : Text → Option ℕ
unfolding scan_number
scan_u64 s = elim (scan_number s) [
  | none ↦ none
  | some p ↦
      if ltb p.1 (2 ^ 64)
      then some (if p.0 then (2 ^ 64 - p.1) % 2 ^ 64 else p.1)
      else some (2 ^ 64 - 1)
]

-- A signed number of `w` bits (`std::stoi` and `operator>>`), none where it does not fit.
unfoldable pub scan_int : ℕ → Text → Option ℤ
unfolding scan_number
scan_int w s = elim (scan_number s) [
  | none ↦ none
  | some p ↦
      if p.0
      then if leb p.1 (2 ^ (w - 1)) then some (sub_ℕ 0 p.1) else none
      else if ltb p.1 (2 ^ (w - 1))
      then some (pos p.1)
      else none
]

-- The low 32 bits as an `int`.
abbrev pub to_i32 : ℕ → ℤ
to_i32 n = let r = n % 2 ^ 32 in if ltb r (2 ^ 31) then pos r else negsuc (2 ^ 32 - 1 - r)

pub take_while-digits :
    (d rest : Text) → AllDigits d → NoDigit rest → take_while is_digit (d ++ rest) ≡ d
unfolding take_while
take_while-digits [] [] a n = refl
take_while-digits [] (c ∷ s) a n = ground arith
take_while-digits (x ∷ d) rest a n = ground (arith, take_while-digits d rest a.1 n)

skip_while-spaces :
    (sp rest : Text)
    → All (λ c. is_space c ≡ true) sp
    → skip_while is_space (sp ++ rest) ≡ skip_while is_space rest
unfolding skip_while
skip_while-spaces [] rest a = refl
skip_while-spaces (c ∷ sp) rest a = ground (arith, skip_while-spaces sp rest a.1)

skip_while-digit : (c : ℕ) (s : Text) → is_digit c ≡ true → skip_while is_space (c ∷ s) ≡ c ∷ s
unfolding skip_while is_digit is_space
skip_while-digit c s h = ground arith

take_sign-digit : (c : ℕ) (s : Text) → is_digit c ≡ true → take_sign (c ∷ s) ≡ (false, c ∷ s)
unfolding take_sign is_digit
take_sign-digit c s h = ground arith

-- The text from the first digit on is what counts.
take_sign-show :
    (sp : Text) (n : ℕ) (rest : Text)
    → All (λ c. is_space c ≡ true) sp
    → take_sign (skip_while is_space (sp ++ (show n ++ rest))) ≡ (false, show n ++ rest)
take_sign-show sp n rest a =
    let (c, s, e, d) = show-cons n in
    ap take_sign (skip_while-spaces sp (show n ++ rest) a)
    ∙ (rw (e, skip_while-digit c (s ++ rest) d, take_sign-digit c (s ++ rest) d))

show-is_empty : (n : ℕ) → is_empty (show n) ≡ false
unfolding is_empty
show-is_empty n = let (c, s, e, d) = show-cons n in rw e

-- A written number behind spaces is read.
pub scan_number-show :
    (sp : Text) (n : ℕ) (rest : Text)
    → All (λ c. is_space c ≡ true) sp
    → NoDigit rest
    → scan_number (sp ++ (show n ++ rest)) ≡ some (false, n)
unfolding scan_number
scan_number-show sp n rest a nd = rw (
  take_sign-show sp n rest a,
  take_while-digits (show n) rest (show_lem n).1 nd,
  show-is_empty n,
  (show_lem n).0,
)

pub skip_while-digits :
    (d rest : Text) → AllDigits d → NoDigit rest → skip_while is_digit (d ++ rest) ≡ rest
unfolding skip_while
skip_while-digits [] [] a n = refl
skip_while-digits [] (c ∷ s) a n = ground arith
skip_while-digits (x ∷ d) rest a n = ground (arith, skip_while-digits d rest a.1 n)

pub extract_u64-show :
    (n : ℕ) (rest : Text)
    → n < 2 ^ 64
    → NoDigit rest
    → extract_u64 (b' ' ∷ (show n ++ rest)) ≡ some (n, rest)
unfolding extract_u64 is_space
extract_u64-show n rest h nd =
    rw
      (
        take_sign-show (b' ' ∷ []) n rest (refl, tt),
        take_while-digits (show n) rest (show_lem n).1 nd,
        skip_while-digits (show n) rest (show_lem n).1 nd,
        show-is_empty n,
        (show_lem n).0,
      )
      (ground arith)
