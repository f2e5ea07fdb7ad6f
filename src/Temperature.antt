-- ===== src/Temperature.antt =====
-- `TemperatureMonitor` of src/temperature.cpp and include/temperature.hpp. The files under
-- /sys/class/hwmon are an argument: the directory entries, and the content of each path.
pub mod Discovery
pub mod Readings
mod Tests
use smooth_demon.Prelude.{
  ℕ, zero, suc, ◌+◌, ◌-◌, Bool, true, false, not, ◌&&◌, ◌||◌, List, [], ◌∷◌, ◌++◌, map, Option,
  none, some, ltb, leb, ◌==◌, if◌then◌else◌,
}
use smooth_demon.Prelude.Int.{ℤ, pos, negsuc}
use smooth_demon.Double.{Double, minus_one}
use smooth_demon.Text.{Text, File, codes, lines, text_eq, contains, is_empty}
use smooth_demon.Text.Decimal.{show}
use smooth_demon.Text.Number.{scan_int, trim_end, first_line}

pub data SensorType : Type 0 where
  cpu_package cpu_core gpu ambient : SensorType

pub record TempSensor (F : Type 0) : Type 0 where
  pub label : Text
  pub path : Text
  pub driver : Text
  pub type : SensorType
  pub temp_celsius : F

-- The file at a path.
abbrev pub Files : Type 0
Files = Text → File

-- `s.back()` is one of the four.
abbrev pub is_trailing : ℕ → Bool
is_trailing c = c == 10 || c == 13 || c == b' ' || c == 9

-- `read_first_line`
pub read_first_line : File → Text
read_first_line none = []
read_first_line (some text) = trim_end is_trailing (first_line (lines text))

abbrev pub cpu_drivers : List Text
cpu_drivers = codes "coretemp" ∷ codes "k10temp" ∷ codes "k8temp" ∷ []

abbrev pub gpu_drivers : List Text
gpu_drivers = codes "i915" ∷ codes "xe" ∷ []

unfoldable pub one_of : List Text → Text → Bool
one_of [] s = false
one_of (t ∷ ts) s = text_eq s t || one_of ts s

pub classify : Text → Text → SensorType
unfolding one_of
classify driver label =
    if one_of cpu_drivers driver
    then if contains (codes "Package") label
      then cpu_package
      else if contains (codes "Tdie") label
      then cpu_package
      else if contains (codes "Tctl") label
      then cpu_package
      else if contains (codes "Core") label
      then cpu_core
      else cpu_package
    else if one_of gpu_drivers driver
    then gpu
    else ambient

pub prefix_of : ℕ → Text
prefix_of n = codes "temp" ++ show n

abbrev pub in_dir : Text → Text → Text
in_dir dir name = dir ++ (codes "/" ++ name)

-- The label, or the driver and the prefix where there is none.
pub label_or : Text → Text → Text → Text
label_or label driver prefix = if is_empty label then driver ++ (codes " " ++ prefix) else label

abbrev pub is_type : SensorType → SensorType → Bool
is_type cpu_package cpu_package = true
is_type cpu_core cpu_core = true
is_type gpu gpu = true
is_type ambient ambient = true
is_type _ _ = false

module _ {F : Type 0} ⦃d : Double F⦄ where
  open d use {of_ℕ, neg, div, lt}

  abbrev milli_to_double : ℤ → F
  milli_to_double (pos n) = of_ℕ n
  milli_to_double (negsuc n) = neg (of_ℕ (suc n))

  -- `read_millideg_celsius`: none where it returns false.
  pub read_millideg_celsius : File → Option F
  read_millideg_celsius none = none
  read_millideg_celsius (some text) = elim (scan_int 64 text) [
    | none ↦ none
    | some milli ↦ some (div (milli_to_double milli) (of_ℕ 1000))
  ]

  -- The sensor of one `tempN_input` file; `exists` is whether its path exists.
  pub sensor_at : Files → (Text → Bool) → Text → Text → ℕ → Option (TempSensor F)
  unfolding label_or
  sensor_at files exists dir driver n =
      let prefix = prefix_of n in
      let input = in_dir dir (prefix ++ codes "_input") in
      let label =
        label_or (read_first_line (files (in_dir dir (prefix ++ codes "_label")))) driver prefix in
      if exists input
      then some (record {
        label = label;
        path = input;
        driver = driver;
        type = classify driver label;
        temp_celsius = of_ℕ 0;
      })
      else none

  abbrev pub add_sensor : Option (TempSensor F) → List (TempSensor F) → List (TempSensor F)
  add_sensor none rest = rest
  add_sensor (some s) rest = s ∷ rest

  -- The sensors from number `n` on, of the `left` numbers that are left.
  pub walk_inputs : Files → (Text → Bool) → Text → Text → ℕ → ℕ → List (TempSensor F)
  unfolding sensor_at
  walk_inputs files exists dir driver zero n = []
  walk_inputs files exists dir driver (suc left) n =
      let rest = walk_inputs files exists dir driver left (n + 1) in
      add_sensor (sensor_at files exists dir driver n) rest

  -- The loop over the directories that hold a driver name.
  pub walk_entries : Files → (Text → Bool) → List Text → List (TempSensor F)
  unfolding walk_inputs
  walk_entries files exists [] = []
  walk_entries files exists (dir ∷ dirs) =
      let driver = read_first_line (files (in_dir dir (codes "name"))) in
      let rest = walk_entries files exists dirs in
      if is_empty driver then rest else walk_inputs files exists dir driver 20 1 ++ rest

  -- `root` holds the entries of /sys/class/hwmon, none where it does not exist.
  pub discover_sensors : Files → (Text → Bool) → Option (List Text) → List (TempSensor F)
  unfolding walk_entries
  discover_sensors files exists none = []
  discover_sensors files exists (some dirs) = walk_entries files exists dirs

  pub read_sensor : Files → TempSensor F → TempSensor F
  unfolding read_millideg_celsius
  read_sensor files s = elim (read_millideg_celsius (files s.path)) [
    | none ↦ record s { temp_celsius = minus_one }
    | some c ↦ record s { temp_celsius = c }
  ]

  pub any_read : Files → List (TempSensor F) → Bool
  unfolding read_millideg_celsius
  any_read files [] = false
  any_read files (s ∷ ss) =
      let rest = any_read files ss in
      elim (read_millideg_celsius (files s.path)) [ none ↦ rest | some c ↦ true ]

  -- The result and the sensors kept.
  pub sample :
      Files → (Text → Bool) → Option (List Text) → List (TempSensor F) → Bool × List (TempSensor F)
  unfolding discover_sensors read_sensor any_read
  sample files exists root [] =
      let found = discover_sensors files exists root in
      (any_read files found, map (read_sensor files) found)
  sample files exists root (s ∷ ss) = (any_read files (s ∷ ss), map (read_sensor files) (s ∷ ss))

  -- The first sensor of the type with a temperature above 0.
  pub first_above_zero : SensorType → List (TempSensor F) → Option F
  first_above_zero t [] = none
  first_above_zero t (s ∷ ss) =
      let rest = first_above_zero t ss in
      if is_type s.type t && lt (of_ℕ 0) s.temp_celsius then some s.temp_celsius else rest

  -- The loop for the highest core temperature above `best`.
  pub best_core : F → List (TempSensor F) → F
  best_core best [] = best
  best_core best (s ∷ ss) =
      let better = is_type s.type cpu_core && lt best s.temp_celsius in
      best_core (if better then s.temp_celsius else best) ss

  pub get_cpu_package_temp : List (TempSensor F) → F
  unfolding first_above_zero best_core
  get_cpu_package_temp sensors = elim (first_above_zero cpu_package sensors) [
    | some t ↦ t
    | none ↦ best_core minus_one sensors
  ]

  pub get_gpu_temp : List (TempSensor F) → F
  unfolding first_above_zero
  get_gpu_temp sensors = elim (first_above_zero gpu sensors) [ some t ↦ t | none ↦ minus_one ]
