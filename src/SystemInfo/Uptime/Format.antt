-- ===== src/SystemInfo/Uptime/Format.antt =====
-- The text of the uptime fits its buffer, and is read back.
use smooth_demon.Prelude.{
  ℕ, zero, suc, ◌+◌, ◌*◌, ◌/◌, ◌%◌, ◌^◌, ◌≤◌, ◌<◌, ◌≡◌, refl, ap, false, [], ◌∷◌, ◌++◌, Option,
  none, some, ltb, ◌==◌, ◌>>=◌, if◌then◌else◌, length, length-append, take, arith, Bool-cases, inl,
  inr, ltb→lt,
}
use smooth_demon.Text.{Text, codes, is_digit, skip_while}
use smooth_demon.Text.Decimal.{show, show_lem, length-show, value, value_from, AllDigits}
use smooth_demon.Text.Number.{take_while, take_while-digits, skip_while-digits}
use smooth_demon.SystemInfo.Uptime.{two_digits, uptime_text, format_uptime}

-- The text behind a literal.
unfoldable pub expect : Text → Text → Option Text
expect [] s = some s
expect (a ∷ lit) [] = none
expect (a ∷ lit) (c ∷ s) = if a == c then expect lit s else none

-- A number, and the text behind it and a literal.
unfoldable pub read_part : Text → Text → Option (ℕ × Text)
unfolding expect
read_part lit s = do
  rest ← expect lit (skip_while is_digit s)
  some (value (take_while is_digit s), rest)

-- A reader of "<days>d <hours>h:<minutes>m:<seconds>s".
unfoldable pub read_uptime : Text → Option ℕ
read_uptime s = do
  (days, s1) ← read_part (codes "d ") s
  (hours, s2) ← read_part (codes "h:") s1
  (minutes, s3) ← read_part (codes "m:") s2
  (seconds, s4) ← read_part (codes "s") s3
  some (days * 86400 + hours * 3600 + minutes * 60 + seconds)

expect_lem : (lit rest : Text) → expect lit (lit ++ rest) ≡ some rest
unfolding expect
expect_lem [] rest = refl
expect_lem (c ∷ lit) rest = ground (arith, expect_lem lit rest)

read_part-digits :
    (c : ℕ) (lit ds rest : Text)
    → is_digit c ≡ false
    → AllDigits ds
    → read_part (c ∷ lit) (ds ++ (c ∷ (lit ++ rest))) ≡ some (value ds, rest)
unfolding read_part
read_part-digits c lit ds rest n a = rw (
  skip_while-digits ds (c ∷ (lit ++ rest)) a n,
  take_while-digits ds (c ∷ (lit ++ rest)) a n,
  expect_lem (c ∷ lit) rest,
)

letters :
    (is_digit b'd' ≡ false)
    × (is_digit b'h' ≡ false)
    × (is_digit b'm' ≡ false)
    × (is_digit b's' ≡ false)
unfolding is_digit
letters = (refl, refl, refl, refl)

two_digits_lem : (n : ℕ) → (value (two_digits n) ≡ n) × AllDigits (two_digits n)
unfolding two_digits value_from is_digit
two_digits_lem n = elim (Bool-cases (ltb n 10)) [
  | inl small ↦ rw (small, two_digits) ((show_lem n).0, (refl, (show_lem n).1))
  | inr big ↦ rw (big, two_digits) (show_lem n)
]

length-two_digits : (n : ℕ) → n < 100 → length (two_digits n) ≤ 2
unfolding two_digits
length-two_digits n h = elim (Bool-cases (ltb n 10)) [
  | inl small ↦ rw (small, two_digits) (omega (arith, length-show n 0 (ltb→lt n 10 small)))
  | inr big ↦ rw (big, two_digits) (length-show n 1 h)
]

length-uptime_text : (secs : ℕ) → secs < 2 ^ 64 → length (uptime_text secs) ≤ 63
unfolding uptime_text
length-uptime_text secs h = omega (
  arith,
  length-append {0},
  length-show (secs / 86400) 14 (omega arith),
  length-two_digits (secs % 86400 / 3600) (omega arith),
  length-two_digits (secs % 3600 / 60) (omega arith),
  length-two_digits (secs % 60) (omega arith),
)

take_all : (n : ℕ) (s : Text) → length s ≤ n → take n s ≡ s
take_all zero [] h = refl
take_all (suc n) [] h = refl
take_all zero (c ∷ s) h = absurd (omega arith)
take_all (suc n) (c ∷ s) h = ap (λ t. c ∷ t) (take_all n s (omega arith))

read_uptime-uptime_text : (secs : ℕ) → read_uptime (uptime_text secs) ≡ some secs
unfolding read_uptime uptime_text
read_uptime-uptime_text secs =
    let (d, h, m, s) = letters in
    let days = show_lem (secs / 86400) in
    let hours = two_digits_lem (secs % 86400 / 3600) in
    let minutes = two_digits_lem (secs % 3600 / 60) in
    let seconds = two_digits_lem (secs % 60) in
    rw
      (
        read_part-digits b'd' (codes " ") (show (secs / 86400)) _ d days.1,
        read_part-digits b'h' (codes ":") (two_digits (secs % 86400 / 3600)) _ h hours.1,
        read_part-digits b'm' (codes ":") (two_digits (secs % 3600 / 60)) _ m minutes.1,
        read_part-digits b's' [] (two_digits (secs % 60)) [] s seconds.1,
        days.0,
        hours.0,
        minutes.0,
        seconds.0,
      )
      (ap some (omega arith))

-- The text of an uptime below 2^64 seconds fits the buffer of `get_formatted_uptime`, and read back
-- as days, hours, minutes and seconds it gives the uptime.
pub read_uptime-format_uptime :
    (secs : ℕ)
    → secs < 2 ^ 64
    → (format_uptime secs ≡ uptime_text secs)
      × (length (format_uptime secs) < 64)
      × (read_uptime (format_uptime secs) ≡ some secs)
unfolding format_uptime
read_uptime-format_uptime secs h =
    let whole = take_all 63 (uptime_text secs) (length-uptime_text secs h) in
    rw whole (refl, omega (arith, length-uptime_text secs h), read_uptime-uptime_text secs)
