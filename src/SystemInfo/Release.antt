-- ===== src/SystemInfo/Release.antt =====
-- The names of the operating system and of the processor.
use smooth_demon.Prelude.{List, [], ◌∷◌, Option, none, some, if◌then◌else◌, drop}
use smooth_demon.Text.{Text, File, codes, lines, starts_with, after_first}
use smooth_demon.SystemInfo.Strings.{trim, strip_quotes}

pretty_name : List Text → Option Text
pretty_name [] = none
pretty_name (line ∷ ls) =
    let rest = pretty_name ls in
    if starts_with (codes "PRETTY_NAME=") line then some (strip_quotes (drop 12 line)) else rest

pretty_name_in : File → Option Text
unfolding pretty_name
pretty_name_in none = none
pretty_name_in (some text) = pretty_name (lines text)

-- The loop over the two paths: a file without the name is passed over, as one that cannot be opened.
unfoldable pub parse_os_name : File → File → Text
unfolding pretty_name_in
parse_os_name etc lib = elim (pretty_name_in etc) [
  | some name ↦ name
  | none ↦ elim (pretty_name_in lib) [ some name ↦ name | none ↦ codes "Unknown Linux" ]
]

model_name : List Text → Option Text
model_name [] = none
model_name (line ∷ ls) =
    let rest = model_name ls in
    let here = elim (after_first b':' line) as (λ o. Option Text) [
      | none ↦ rest
      | some v ↦ some (trim v)
    ] in
    if starts_with (codes "model name") line then here else rest

unfoldable pub parse_cpu_model : File → Text
unfolding model_name
parse_cpu_model none = codes "Unknown CPU"
parse_cpu_model (some text) = elim (model_name (lines text)) [
  | none ↦ codes "Unknown CPU"
  | some name ↦ name
]
