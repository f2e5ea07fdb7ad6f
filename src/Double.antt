-- ===== src/Double.antt =====
-- `double` (f64): an interface with the operations that the program calls, since the development
-- has no floating-point numbers. `a > b` is `lt b a`. The laws are those of IEEE comparisons, in
-- which every comparison with NaN is false.
pub mod Fixed
pub mod Percent
pub mod Partial
use smooth_demon.Prelude.{
  ℕ, ◌^◌, ◌≤◌, ◌<◌, ◌≡◌, ◌⊎◌, Bool, true, false, if◌then◌else◌, arith, Bool-cases, inl, inr,
}

pub record Double (F : Type 0) : Type 0 where
  -- `static_cast<double>` of an unsigned integer, and whole literals.
  pub of_ℕ : ℕ → F
  -- `literal m e` is the decimal fraction m / 10^e.
  pub literal : ℕ → ℕ → F
  pub neg : F → F
  pub add : F → F → F
  pub sub : F → F → F
  pub mul : F → F → F
  pub div : F → F → F
  pub sqrt : F → F
  pub ceil : F → F
  -- `static_cast` to an unsigned integer.
  pub to_ℕ : F → ℕ
  pub lt : F → F → Bool

module _ {F : Type 0} ⦃d : Double F⦄ where
  abbrev pub minus_one : F
  minus_one = d.neg (d.of_ℕ 1)

  -- Not above: `a` is not greater than `b`, which also holds where one of them is NaN.
  infix 50 ◌≼◌
  abbrev pub ◌≼◌ : F → F → Type 0
  a ≼ b = d.lt b a ≡ false

  -- `std::clamp(v, lo, hi)`.
  unfoldable pub clamp : F → F → F → F
  clamp v lo hi = if d.lt v lo then lo else if d.lt hi v then hi else v

pub record IsOrdered (F : Type 0) ⦃d : Double F⦄ : Type 0 where
  -- `!std::isnan`
  pub is_number : F → Bool
  pub lt_irrefl : (x : F) → d.lt x x ≡ false
  pub lt_trans : (x y z : F) → d.lt x y ≡ true → d.lt y z ≡ true → d.lt x z ≡ true
  pub lt_split :
      (x y z : F) → is_number y ≡ true → d.lt x z ≡ true → (d.lt x y ≡ true) ⊎ (d.lt y z ≡ true)
  -- Integers below 2^53 are exact.
  pub of_ℕ_lt : (m n : ℕ) → m < n → n ≤ 2 ^ 53 → d.lt (d.of_ℕ m) (d.of_ℕ n) ≡ true

module _ {F : Type 0} ⦃d : Double F⦄ (laws : IsOrdered F) where
  open laws use {is_number, lt_irrefl, lt_trans, lt_split, of_ℕ_lt}

  pub lt_asymm : (x y : F) → d.lt x y ≡ true → d.lt y x ≡ false
  lt_asymm x y h = elim (Bool-cases (d.lt y x)) [
    | inl back ↦ ground (arith, lt_trans x y x h back, lt_irrefl x)
    | inr none ↦ none
  ]

  pub ≼_trans : (x y z : F) → is_number y ≡ true → x ≼ y → y ≼ z → x ≼ z
  ≼_trans x y z num h k = elim (Bool-cases (d.lt z x)) [
    | inl above ↦ ground (arith, lt_split z y x num above)
    | inr below ↦ below
  ]

  pub zero_le_hundred : d.of_ℕ 0 ≼ d.of_ℕ 100
  zero_le_hundred = lt_asymm _ _ (of_ℕ_lt 0 100 (omega arith) (omega arith))
