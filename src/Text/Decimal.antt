-- ===== src/Text/Decimal.antt =====
-- Runs of decimal digits and the number that they stand for.
use smooth_demon.Prelude.{
  length, ℕ, zero, suc, ◌+◌, ◌-◌, ◌*◌, ◌/◌, ◌%◌, ◌≤◌, ◌<◌, ◌≡◌, ◌∙◌, ap, true, false, [], ◌∷◌,
  arith, if◌then◌else◌, All, Bool-cases, inl, inr, ltb,
}
use smooth_demon.Text.{Text, is_digit}

-- `acc` followed by the digits `s`, as a number.
unfoldable pub value_from : ℕ → Text → ℕ
value_from acc [] = acc
value_from acc (c ∷ s) = value_from (acc * 10 + (c - b'0')) s

abbrev pub value : Text → ℕ
value s = value_from 0 s

abbrev pub AllDigits : Text → Type 0
AllDigits s = All (λ c. is_digit c ≡ true) s

-- No digit follows.
abbrev pub NoDigit : Text → Type 0
NoDigit [] = Unit
NoDigit (c ∷ s) = is_digit c ≡ false

pub le-value_from : (acc : ℕ) (s : Text) → acc ≤ value_from acc s
unfolding value_from
le-value_from acc [] = omega arith
le-value_from acc (c ∷ s) = omega (arith, le-value_from (acc * 10 + (c - b'0')) s)

-- The digits of `n` before `rest`, on fuel above `n`.
unfoldable pub show_from : ℕ → ℕ → Text → Text
show_from zero n rest = rest
show_from (suc fuel) n rest =
    let more = show_from fuel (n / 10) ((n % 10 + b'0') ∷ rest) in
    if ltb n 10 then (n + b'0') ∷ rest else more

-- `std::to_string` of an unsigned number.
unfoldable pub show : ℕ → Text
unfolding show_from
show n = show_from (suc n) n []

show_from-value :
    (fuel n : ℕ) (rest : Text) → n < fuel → value_from 0 (show_from fuel n rest) ≡ value_from n rest
unfolding show_from value_from
show_from-value zero n rest h = absurd (omega arith)
show_from-value (suc fuel) n rest h = elim (Bool-cases (ltb n 10)) [
  | inl small ↦ rw small (ap (λ (k : ℕ). value_from k rest) (omega arith))
  | inr big ↦ rw big (
      show_from-value fuel (n / 10) ((n % 10 + b'0') ∷ rest) (ground arith)
      ∙ ap (λ (k : ℕ). value_from k rest) (omega arith))
]

show_from-digits :
    (fuel n : ℕ) (rest : Text) → n < fuel → AllDigits rest → AllDigits (show_from fuel n rest)
unfolding show_from is_digit
show_from-digits zero n rest h d = absurd (omega arith)
show_from-digits (suc fuel) n rest h d = elim (Bool-cases (ltb n 10)) [
  | inl small ↦ rw small (ground arith, d)
  | inr big ↦
      rw big
        (show_from-digits fuel (n / 10) ((n % 10 + b'0') ∷ rest) (ground arith) (ground arith, d))
]

-- The text of a number is digits only, and stands for that number.
pub show_lem : (n : ℕ) → (value (show n) ≡ n) × AllDigits (show n)
unfolding show value_from
show_lem n =
    (show_from-value (suc n) n [] (omega arith), show_from-digits (suc n) n [] (omega arith) tt)

show_from-cons :
    (fuel n : ℕ) (rest : Text) → n < fuel → (c : ℕ) × (s : Text) × (show_from fuel n rest ≡ c ∷ s)
unfolding show_from
show_from-cons zero n rest h = absurd (omega arith)
show_from-cons (suc fuel) n rest h = elim (Bool-cases (ltb n 10)) [
  | inl small ↦ (n + b'0', rest, rw small)
  | inr big ↦
      let (c, s, e) = show_from-cons fuel (n / 10) ((n % 10 + b'0') ∷ rest) (ground arith) in
      (c, s, rw big e)
]

-- A printed number has a first digit.
pub show-cons : (n : ℕ) → (c : ℕ) × (s : Text) × (show n ≡ c ∷ s) × (is_digit c ≡ true)
unfolding show
show-cons n =
    let (c, s, e) = show_from-cons (suc n) n [] (omega arith) in
    (c, s, e, (rw e at (show_from-digits (suc n) n [] (omega arith) tt)).0)

abbrev pub power_of_ten : ℕ → ℕ
power_of_ten zero = 1
power_of_ten (suc k) = 10 * power_of_ten k

length-show_from :
    (fuel n k : ℕ) (rest : Text)
    → n < power_of_ten (suc k)
    → length (show_from fuel n rest) ≤ suc k + length rest
unfolding show_from
length-show_from zero n k rest h = omega arith
length-show_from (suc fuel) n zero rest h = ground arith
length-show_from (suc fuel) n (suc k) rest h =
    ground (arith, length-show_from fuel (n / 10) k ((n % 10 + b'0') ∷ rest) (omega arith))

-- A number below 10^(k + 1) has at most k + 1 digits.
pub length-show : (n k : ℕ) → n < power_of_ten (suc k) → length (show n) ≤ suc k
unfolding show
length-show n k h = omega (arith, length-show_from (suc n) n k [] h)
