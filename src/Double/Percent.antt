-- ===== src/Double/Percent.antt =====
-- Percentages of `double` values that are never NaN.
use smooth_demon.Prelude.{ℕ, ◌^◌, ◌<◌, ◌≡◌, Bool, true, arith}
use smooth_demon.Double.{Double, IsOrdered, ◌≼◌, clamp, zero_le_hundred}

-- What IEEE arithmetic says of when a result is NaN: a quotient of a finite value by one above 0, a
-- difference and a product of finite values, and a product with a finite value above 0 are not.
pub record IsArithmetic (F : Type 0) ⦃d : Double F⦄ (laws : IsOrdered F) : Type 0 where
  -- `std::isfinite`
  pub is_finite : F → Bool
  pub finite-number : (x : F) → is_finite x ≡ true → laws.is_number x ≡ true
  pub of_ℕ-finite : (n : ℕ) → n < 2 ^ 64 → is_finite (d.of_ℕ n) ≡ true
  pub quotient-finite :
      (m n : ℕ) → m < 2 ^ 64 → 0 < n → n < 2 ^ 64 → is_finite (d.div (d.of_ℕ m) (d.of_ℕ n)) ≡ true
  pub div-number :
      (x y : F) → is_finite x ≡ true → d.lt (d.of_ℕ 0) y ≡ true → laws.is_number (d.div x y) ≡ true
  pub sub-number :
      (x y : F) → is_finite x ≡ true → is_finite y ≡ true → laws.is_number (d.sub x y) ≡ true
  pub mul-number :
      (x y : F) → is_finite x ≡ true → is_finite y ≡ true → laws.is_number (d.mul x y) ≡ true
  pub scale-number :
      (x y : F)
      → laws.is_number x ≡ true
      → is_finite y ≡ true
      → d.lt (d.of_ℕ 0) y ≡ true
      → laws.is_number (d.mul x y) ≡ true
  -- 0.001 is above 0.
  pub literal_positive : d.lt (d.of_ℕ 0) (d.literal 1 3) ≡ true

module _ {F : Type 0} ⦃d : Double F⦄ (laws : IsOrdered F) where
  -- Not NaN, not below 0 and not above 100.
  abbrev pub IsPercent : F → Type 0
  IsPercent v = (laws.is_number v ≡ true) × (d.of_ℕ 0 ≼ v) × (v ≼ d.of_ℕ 100)

  module _ (rules : IsArithmetic F laws) where
    pub zero-IsPercent : IsPercent (d.of_ℕ 0)
    zero-IsPercent = (
      rules.finite-number (d.of_ℕ 0) (rules.of_ℕ-finite 0 (omega arith)),
      laws.lt_irrefl (d.of_ℕ 0),
      zero_le_hundred laws,
    )

    hundred-IsPercent : IsPercent (d.of_ℕ 100)
    hundred-IsPercent = (
      rules.finite-number (d.of_ℕ 100) (rules.of_ℕ-finite 100 (omega arith)),
      zero_le_hundred laws,
      laws.lt_irrefl (d.of_ℕ 100),
    )

    -- A number that is clamped to the range from 0 to 100 is a percentage.
    pub clamp-IsPercent :
        (v : F) → laws.is_number v ≡ true → IsPercent (clamp v (d.of_ℕ 0) (d.of_ℕ 100))
    unfolding clamp
    clamp-IsPercent v num = ground (arith, zero-IsPercent, hundred-IsPercent)

    -- A value that is a number times 100.
    pub hundredfold-number :
        (x : F) → laws.is_number x ≡ true → laws.is_number (d.mul x (d.of_ℕ 100)) ≡ true
    hundredfold-number x num =
        rules.scale-number x (d.of_ℕ 100) num (rules.of_ℕ-finite 100 (omega arith))
          (laws.of_ℕ_lt 0 100 (omega arith) (omega arith))
