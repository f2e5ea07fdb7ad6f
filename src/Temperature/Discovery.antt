-- ===== src/Temperature/Discovery.antt =====
-- The sensors that a discovery finds.
use smooth_demon.Prelude.{
  ℕ, zero, suc, ◌+◌, ◌≡◌, refl, Bool, true, false, List, [], ◌∷◌, ◌++◌, Option, none, some, arith,
  All, All-append, if◌then◌else◌,
}
use smooth_demon.Double.{Double}
use smooth_demon.Text.{Text, is_empty, codes}
use smooth_demon.Temperature.{
  TempSensor, Files, classify, read_first_line, in_dir, prefix_of, sensor_at, add_sensor,
  walk_inputs, walk_entries, discover_sensors, label_or,
}

label_or_nonempty :
    (label driver prefix : Text)
    → is_empty driver ≡ false
    → is_empty (label_or label driver prefix) ≡ false
unfolding label_or is_empty
label_or_nonempty [] (c ∷ s) prefix h = refl
label_or_nonempty (l ∷ ls) driver prefix h = refl
label_or_nonempty [] [] prefix h = ground arith

module _ (F : Type 0) ⦃d : Double F⦄ where
  -- A sensor as the discovery makes it: of an existing input file, with a driver name, classified
  -- by its driver and label.
  unfoldable pub IsFound : (Text → Bool) → TempSensor F → Type 0
  IsFound exists s =
      (exists s.path ≡ true)
      × (is_empty s.driver ≡ false)
      × (is_empty s.label ≡ false)
      × (s.type ≡ classify s.driver s.label)

  add_sensor-All {κ} :
      (P : TempSensor F → Type κ) (b : Bool) (s : TempSensor F) (rest : List (TempSensor F))
      → (b ≡ true → P s)
      → All P rest
      → All P (add_sensor (if b then some s else none) rest)
  add_sensor-All P true s rest h r = (h refl, r)
  add_sensor-All P false s rest h r = r

  All-if {κ} :
      (P : TempSensor F → Type κ) (b : Bool) (xs ys : List (TempSensor F))
      → All P xs
      → (b ≡ false → All P ys)
      → All P (if b then xs else ys)
  All-if P true xs ys h k = h
  All-if P false xs ys h k = k refl

  walk_inputs-IsFound :
      (files : Files) (exists : Text → Bool) (dir driver : Text) (left n : ℕ)
      → is_empty driver ≡ false
      → All (IsFound exists) (walk_inputs files exists dir driver left n)
  unfolding walk_inputs sensor_at IsFound
  walk_inputs-IsFound files exists dir driver zero n h = tt
  walk_inputs-IsFound files exists dir driver (suc left) n h =
      add_sensor-All (IsFound exists) (exists (in_dir dir (prefix_of n ++ codes "_input"))) _ _
        (λ e. (e, h, label_or_nonempty _ driver (prefix_of n) h, refl))
        (walk_inputs-IsFound files exists dir driver left (n + 1) h)

  walk_entries-IsFound :
      (files : Files) (exists : Text → Bool) (dirs : List Text)
      → All (IsFound exists) (walk_entries files exists dirs)
  unfolding walk_entries
  walk_entries-IsFound files exists [] = tt
  walk_entries-IsFound files exists (dir ∷ dirs) =
      let rest = walk_entries-IsFound files exists dirs in
      let driver = read_first_line (files (in_dir dir (codes "name"))) in
      All-if (IsFound exists) (is_empty driver) _ _ rest (λ e.
        All-append (IsFound exists) (walk_inputs files exists dir driver 20 1) _
          (walk_inputs-IsFound files exists dir driver 20 1 e) rest)

  -- Every sensor that the discovery finds has an existing input file, a driver and a label that are
  -- not empty, and the type that its driver and label give.
  pub discover_sensors-IsFound :
      (files : Files) (exists : Text → Bool) (root : Option (List Text))
      → All (IsFound exists) (discover_sensors files exists root)
  unfolding discover_sensors
  discover_sensors-IsFound files exists none = tt
  discover_sensors-IsFound files exists (some dirs) = walk_entries-IsFound files exists dirs
