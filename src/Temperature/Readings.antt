-- ===== src/Temperature/Readings.antt =====
-- The temperatures that the accessors report.
use smooth_demon.Prelude.{
  ◌≡◌, ◌∙◌, Bool, some, ap, ◌⊎◌, inl, inr, Bool-cases, ◌++◌, refl, true, ◌&&◌, List, [], ◌∷◌, none,
  some, arith, All, if◌then◌else◌,
}
use smooth_demon.Double.{Double, IsOrdered, ◌≼◌, minus_one, ≼_trans, lt_asymm}
use smooth_demon.Temperature.{
  TempSensor, SensorType, is_type, first_above_zero, best_core, get_cpu_package_temp,
}

module _ {F : Type 0} ⦃d : Double F⦄ where
  -- No core sensor of the list is hotter than `t`.
  abbrev pub NoneHotter : F → List (TempSensor F) → Type 0
  NoneHotter t = All (λ s. is_type s.type SensorType.cpu_core ≡ true → s.temp_celsius ≼ t)

  -- No sensor of the type is above 0.
  abbrev pub NoneAboveZero : SensorType → List (TempSensor F) → Type 0
  NoneAboveZero t = All (λ s. is_type s.type t ≡ true → s.temp_celsius ≼ d.of_ℕ 0)

  first_above_zero-none :
      (t : SensorType) (sensors : List (TempSensor F))
      → NoneAboveZero t sensors
      → first_above_zero t sensors ≡ none
  unfolding first_above_zero
  first_above_zero-none t [] h = refl
  first_above_zero-none t (s ∷ ss) h = ground (arith, first_above_zero-none t ss h.1, h.0)

  first_above_zero-first :
      (t : SensorType) (before after : List (TempSensor F)) (s : TempSensor F)
      → NoneAboveZero t before
      → is_type s.type t ≡ true
      → d.lt (d.of_ℕ 0) s.temp_celsius ≡ true
      → first_above_zero t (before ++ s ∷ after) ≡ some s.temp_celsius
  unfolding first_above_zero
  first_above_zero-first t [] after s h k l = ground arith
  first_above_zero-first t (b ∷ before) after s h k l =
      ground (arith, first_above_zero-first t before after s h.1 k l, h.0)

  -- The reading of the first package sensor of the list that is above 0, wherever it stands and
  -- whatever the other sensors read, is what is reported.
  pub get_cpu_package_temp-first :
      (before after : List (TempSensor F)) (s : TempSensor F)
      → NoneAboveZero SensorType.cpu_package before
      → s.type ≡ SensorType.cpu_package
      → d.lt (d.of_ℕ 0) s.temp_celsius ≡ true
      → get_cpu_package_temp (before ++ s ∷ after) ≡ s.temp_celsius
  unfolding get_cpu_package_temp
  get_cpu_package_temp-first before after s h k l =
      let of_type : is_type s.type SensorType.cpu_package ≡ true =
        ap (λ t. is_type t SensorType.cpu_package) k in
      rw
        (
          first_above_zero-first SensorType.cpu_package before after s h of_type l,
          get_cpu_package_temp,
        )
        refl

  -- The temperature is the reading of a core sensor of the list.
  unfoldable pub IsCoreReading : F → List (TempSensor F) → Type 0
  IsCoreReading t [] = ⊥
  IsCoreReading t (s ∷ ss) =
      ((is_type s.type SensorType.cpu_core ≡ true) × (t ≡ s.temp_celsius)) ⊎ IsCoreReading t ss

  best_core-reading :
      (sensors : List (TempSensor F)) (best : F)
      → (best_core best sensors ≡ best) ⊎ IsCoreReading (best_core best sensors) sensors
  unfolding best_core IsCoreReading
  best_core-reading [] best = inl refl
  best_core-reading (s ∷ ss) best =
      let better = is_type s.type SensorType.cpu_core && d.lt best s.temp_celsius in
      let next = λ (b : Bool). if b then s.temp_celsius else best in
      elim (best_core-reading ss (next better)) [
        | inr later ↦ inr (inr later)
        | inl same ↦ elim (Bool-cases better) [
          | inl hotter ↦ inr (inl (ground (arith, hotter), same ∙ ap next hotter))
          | inr kept ↦ inl (same ∙ ap next kept)
        ]
      ]

  module _ (laws : IsOrdered F) where
    -- All readings are numbers.
    abbrev pub AllNumbers : List (TempSensor F) → Type 0
    AllNumbers = All (λ s. laws.is_number s.temp_celsius ≡ true)

    -- One round of the loop.
    better_step :
        (best : F) (s : TempSensor F)
        → laws.is_number best ≡ true
        → laws.is_number s.temp_celsius ≡ true
        → let next =
            if is_type s.type SensorType.cpu_core && d.lt best s.temp_celsius
            then s.temp_celsius
            else best in
          (laws.is_number next ≡ true)
          × (best ≼ next)
          × (is_type s.type SensorType.cpu_core ≡ true → s.temp_celsius ≼ next)
    better_step best s n m = ground (
      arith,
      laws.lt_irrefl best,
      laws.lt_irrefl s.temp_celsius,
      lt_asymm laws best s.temp_celsius,
    )

    best_core-le :
        (sensors : List (TempSensor F)) (best : F)
        → laws.is_number best ≡ true
        → AllNumbers sensors
        → best ≼ best_core best sensors
    unfolding best_core
    best_core-le [] best n a = laws.lt_irrefl best
    best_core-le (s ∷ ss) best n a =
        let (num, up, hot) = better_step best s n a.0 in
        ≼_trans laws best _ _ num up (best_core-le ss _ num a.1)

    best_core-NoneHotter :
        (sensors : List (TempSensor F)) (best : F)
        → laws.is_number best ≡ true
        → AllNumbers sensors
        → NoneHotter (best_core best sensors) sensors
    unfolding best_core
    best_core-NoneHotter [] best n a = tt
    best_core-NoneHotter (s ∷ ss) best n a =
        let (num, up, hot) = better_step best s n a.0 in
        (
          λ core. ≼_trans laws s.temp_celsius _ _ num (hot core) (best_core-le ss _ num a.1),
          best_core-NoneHotter ss _ num a.1,
        )

    -- If all readings are numbers and no package sensor is above 0, what is reported is the reading
    -- of a core sensor of the list, or -1, and no core sensor is hotter than it.
    pub get_cpu_package_temp-fallback :
        (sensors : List (TempSensor F))
        → laws.is_number minus_one ≡ true
        → AllNumbers sensors
        → NoneAboveZero SensorType.cpu_package sensors
        → ((get_cpu_package_temp sensors ≡ minus_one)
            ⊎ IsCoreReading (get_cpu_package_temp sensors) sensors)
          × NoneHotter (get_cpu_package_temp sensors) sensors
    unfolding get_cpu_package_temp
    get_cpu_package_temp-fallback sensors n a cold =
        rw (first_above_zero-none SensorType.cpu_package sensors cold, get_cpu_package_temp)
          (best_core-reading sensors minus_one, best_core-NoneHotter sensors minus_one n a)
