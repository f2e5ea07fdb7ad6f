-- ===== src/Temperature/Tests.antt =====
-- Sensors at concrete inputs.
use smooth_demon.Prelude.{ℕ, ◌*◌, ◌≡◌, ◌⊎◌, refl, true, List, [], ◌∷◌, some, arith, All}
use smooth_demon.Prelude.Int.{pos}
use smooth_demon.Double.Fixed.{Fixed, fixed_double, Fixed-IsOrdered, Fixed-is_number}
use smooth_demon.Text.{codes, text_eq, contains, starts_with, is_empty}
use smooth_demon.Temperature.{
  SensorType, TempSensor, Files, classify, one_of, discover_sensors, first_above_zero,
  get_cpu_package_temp, best_core,
}
use smooth_demon.Temperature.Discovery.{IsFound, discover_sensors-IsFound}
use smooth_demon.Temperature.Readings.{
  NoneHotter, IsCoreReading, get_cpu_package_temp-first, get_cpu_package_temp-fallback,
}
use smooth_demon.Double.{minus_one}

classifies_core : classify (codes "coretemp") (codes "Core 0") ≡ SensorType.cpu_core
unfolding classify one_of contains text_eq starts_with is_empty
classifies_core = refl

classifies_die : classify (codes "k10temp") (codes "Tdie") ≡ SensorType.cpu_package
unfolding classify one_of contains text_eq starts_with is_empty
classifies_die = refl

-- Every file holds one word.
abbrev files : Files
files path = some (codes "coretemp")

discover_sensors-IsFound_example :
    All
      (IsFound Fixed (λ p. true))
      (discover_sensors files (λ p. true) (some (codes "hwmon0" ∷ [])))
discover_sensors-IsFound_example =
    discover_sensors-IsFound Fixed files (λ p. true) (some (codes "hwmon0" ∷ []))

abbrev core_sensor : ℕ → TempSensor Fixed
core_sensor t = record {
  label = codes "Core";
  path = [];
  driver = codes "coretemp";
  type = SensorType.cpu_core;
  temp_celsius = pos (t * 1_000_000);
}

abbrev cores : List (TempSensor Fixed)
cores = core_sensor 41 ∷ core_sensor 55 ∷ core_sensor 50 ∷ []

reports_hottest : get_cpu_package_temp cores ≡ pos 55_000_000
unfolding get_cpu_package_temp first_above_zero best_core
reports_hottest = refl

abbrev package_sensor : ℕ → TempSensor Fixed
package_sensor t = record (core_sensor t) { type = SensorType.cpu_package }

get_cpu_package_temp-first_example :
    get_cpu_package_temp (core_sensor 60 ∷ package_sensor 0 ∷ package_sensor 48 ∷ [])
    ≡ pos 48_000_000
get_cpu_package_temp-first_example =
    get_cpu_package_temp-first (core_sensor 60 ∷ package_sensor 0 ∷ []) [] (package_sensor 48)
      (λ p. ground arith, (λ p. refl, tt)) refl refl

get_cpu_package_temp-fallback_example :
    ((get_cpu_package_temp cores ≡ minus_one) ⊎ IsCoreReading (get_cpu_package_temp cores) cores)
    × NoneHotter (get_cpu_package_temp cores) cores
get_cpu_package_temp-fallback_example =
    get_cpu_package_temp-fallback Fixed-IsOrdered cores (Fixed-is_number _)
      (Fixed-is_number _, (Fixed-is_number _, (Fixed-is_number _, tt)))
      (λ p. ground arith, (λ p. ground arith, (λ p. ground arith, tt)))
