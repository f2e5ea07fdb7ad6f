-- ===== src/Double/Partial.antt =====
-- Fixed-point numbers with a NaN, which a division by 0 gives: values of `Double` that are not all
-- numbers.
use smooth_demon.Prelude.{
  ℕ, ◌+◌, ◌<◌, ◌≡◌, ◌⊎◌, refl, Bool, true, false, Option, none, some, arith, ◌==◌, if◌then◌else◌,
}
use smooth_demon.Prelude.Int.{pos, pos_part, neg_part, ltb_ℤ}
use smooth_demon.Double.{Double, IsOrdered}
use smooth_demon.Double.Percent.{IsArithmetic}
use smooth_demon.Double.Fixed.{Fixed, fixed_double}

abbrev pub Partial : Type 0
Partial = Option Fixed

-- NaN where the argument is.
abbrev lift : (Fixed → Fixed) → Partial → Partial
lift f none = none
lift f (some a) = some (f a)

abbrev lift_two : (Fixed → Fixed → Fixed) → Partial → Partial → Partial
lift_two f none b = none
lift_two f (some a) none = none
lift_two f (some a) (some b) = some (f a b)

abbrev is_zero : Fixed → Bool
is_zero a = pos_part a + neg_part a == 0

abbrev divide : Partial → Partial → Partial
divide none b = none
divide (some a) none = none
divide (some a) (some b) = if is_zero b then none else some (fixed_double.div a b)

abbrev less : Partial → Partial → Bool
less none b = false
less (some a) none = false
less (some a) (some b) = ltb_ℤ a b

abbrev truncated : Partial → ℕ
truncated none = 0
truncated (some a) = fixed_double.to_ℕ a

abbrev is_some : Partial → Bool
is_some none = false
is_some (some a) = true

instance abbrev pub partial_double : Double Partial
partial_double = record {
  of_ℕ = λ n. some (fixed_double.of_ℕ n);
  literal = λ m e. some (fixed_double.literal m e);
  neg = lift fixed_double.neg;
  add = lift_two fixed_double.add;
  sub = lift_two fixed_double.sub;
  mul = lift_two fixed_double.mul;
  div = divide;
  sqrt = lift fixed_double.sqrt;
  ceil = lift fixed_double.ceil;
  to_ℕ = truncated;
  lt = less;
}

less_irrefl : (x : Partial) → less x x ≡ false
less_irrefl none = refl
less_irrefl (some a) = ground arith

less_trans : (x y z : Partial) → less x y ≡ true → less y z ≡ true → less x z ≡ true
less_trans (some a) (some b) (some c) h k = ground arith
less_trans none y z h k = ground arith
less_trans (some a) none z h k = ground arith
less_trans (some a) (some b) none h k = ground arith

less_split :
    (x y z : Partial) → is_some y ≡ true → less x z ≡ true → (less x y ≡ true) ⊎ (less y z ≡ true)
less_split (some a) (some b) (some c) n h = ground arith
less_split none y z n h = ground arith
less_split (some a) y none n h = ground arith
less_split (some a) none (some c) n h = ground arith

pub Partial-IsOrdered : IsOrdered Partial
Partial-IsOrdered = record {
  is_number = is_some;
  lt_irrefl = less_irrefl;
  lt_trans = less_trans;
  lt_split = less_split;
  of_ℕ_lt = λ m n h k. ground arith;
}

divide-number :
    (x y : Partial) → is_some x ≡ true → less (some (pos 0)) y ≡ true → is_some (divide x y) ≡ true
divide-number (some a) (some b) h k = ground arith
divide-number none y h k = ground arith
divide-number (some a) none h k = ground arith

lift_two-number :
    (f : Fixed → Fixed → Fixed) (x y : Partial)
    → is_some x ≡ true
    → is_some y ≡ true
    → is_some (lift_two f x y) ≡ true
lift_two-number f (some a) (some b) h k = refl
lift_two-number f none y h k = ground arith
lift_two-number f (some a) none h k = ground arith

quotient_number :
    (m n : ℕ)
    → 0 < n
    → is_some (divide (some (fixed_double.of_ℕ m)) (some (fixed_double.of_ℕ n))) ≡ true
quotient_number m n h = ground arith

pub Partial-IsArithmetic : IsArithmetic Partial Partial-IsOrdered
unfolding Partial-IsOrdered
Partial-IsArithmetic = record {
  is_finite = is_some;
  finite-number = λ x h. h;
  of_ℕ-finite = λ n h. refl;
  quotient-finite = λ m n h k l. quotient_number m n k;
  div-number = λ x y h k. divide-number x y h k;
  sub-number = λ x y h k. lift_two-number fixed_double.sub x y h k;
  mul-number = λ x y h k. lift_two-number fixed_double.mul x y h k;
  scale-number = λ x y h k l. lift_two-number fixed_double.mul x y h k;
  literal_positive = refl;
}
