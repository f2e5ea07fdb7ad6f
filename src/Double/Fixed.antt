-- ===== src/Double/Fixed.antt =====
-- Fixed-point numbers in millionths, with a sign: values at which the laws of `Double` can be met
-- and the programs run.
use smooth_demon.Prelude.{
  ℕ, zero, suc, ◌+◌, ◌-◌, ◌*◌, ◌/◌, ◌^◌, ◌≡◌, refl, true, arith, leb, if◌then◌else◌,
}
use smooth_demon.Prelude.Int.{ℤ, pos, pos_part, neg_part, sub_ℕ, ◌+ℤ◌, ltb_ℤ}
use smooth_demon.Double.{Double, IsOrdered}
use smooth_demon.Double.Percent.{IsArithmetic}

abbrev pub unit : ℕ
unit = 1_000_000

abbrev pub Fixed : Type 0
Fixed = ℤ

-- The square root of a natural number, digit by binary digit.
unfoldable pub square_root : ℕ → ℕ → ℕ → ℕ
square_root zero n r = r
square_root (suc k) n r =
    square_root k n (if leb ((r + 2 ^ k) * (r + 2 ^ k)) n then r + 2 ^ k else r)

abbrev negate : ℤ → ℤ
negate a = sub_ℕ (neg_part a) (pos_part a)

abbrev magnitude : ℤ → ℕ
magnitude a = pos_part a + neg_part a

abbrev with_sign : ℤ → ℤ → ℕ → ℤ
with_sign a b n =
    sub_ℕ
      (if leb (neg_part a) 0
        then (if leb (neg_part b) 0 then n else 0)
        else if leb (neg_part b) 0
        then 0
        else n)
      (if leb (neg_part a) 0
        then (if leb (neg_part b) 0 then 0 else n)
        else if leb (neg_part b) 0
        then n
        else 0)

instance abbrev pub fixed_double : Double Fixed
fixed_double = record {
  of_ℕ = λ n. pos (n * unit);
  literal = λ m e. pos (m * unit / 10 ^ e);
  neg = negate;
  add = λ a b. a +ℤ b;
  sub = λ a b. a +ℤ negate b;
  mul = λ a b. with_sign a b (magnitude a * magnitude b / unit);
  div = λ a b. with_sign a b (magnitude a * unit / magnitude b);
  sqrt = λ a. pos (square_root 64 (pos_part a * unit) 0);
  ceil = λ a. pos ((pos_part a + unit - 1) / unit * unit);
  to_ℕ = λ a. pos_part a / unit;
  lt = ltb_ℤ;
}

pub Fixed-IsOrdered : IsOrdered Fixed
Fixed-IsOrdered = record {
  is_number = λ x. true;
  lt_irrefl = λ x. ground arith;
  lt_trans = λ x y z h k. ground arith;
  lt_split = λ x y z num h. ground arith;
  of_ℕ_lt = λ m n h k. ground arith;
}

pub Fixed-is_number : (x : Fixed) → Fixed-IsOrdered.is_number x ≡ true
unfolding Fixed-IsOrdered
Fixed-is_number x = refl

pub Fixed-IsArithmetic : IsArithmetic Fixed Fixed-IsOrdered
unfolding Fixed-IsOrdered
Fixed-IsArithmetic = record {
  is_finite = λ x. true;
  finite-number = λ x h. refl;
  of_ℕ-finite = λ n h. refl;
  quotient-finite = λ m n h k l. refl;
  div-number = λ x y h k. refl;
  sub-number = λ x y h k. refl;
  mul-number = λ x y h k. refl;
  scale-number = λ x y h k l. refl;
  literal_positive = refl;
}
