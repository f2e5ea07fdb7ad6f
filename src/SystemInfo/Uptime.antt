-- ===== src/SystemInfo/Uptime.antt =====
-- The time since the start of the system, and its text.
pub mod Format
use smooth_demon.Prelude.{
  ℕ, ◌+◌, ◌*◌, ◌/◌, ◌%◌, Bool, true, false, List, [], ◌∷◌, ◌++◌, Option, none, some, ltb, ◌==◌,
  if◌then◌else◌, take,
}
use smooth_demon.Double.{Double}
use smooth_demon.Text.{Text, File, codes}
use smooth_demon.Text.Decimal.{show}

-- /proc/uptime is read by `read_double`, the extraction of a double from a stream.
pub get_uptime_seconds : {F : Type 0} ⦃d : Double F⦄ → (Text → Option F) → File → ℕ
get_uptime_seconds read_double none = 0
get_uptime_seconds ⦃d⦄ read_double (some text) = elim (read_double text) [
  | none ↦ 0
  | some secs ↦ d.to_ℕ (if d.lt secs (d.of_ℕ 0) then d.of_ℕ 0 else secs)
]

-- `%02llu`
pub two_digits : ℕ → Text
two_digits n = if ltb n 10 then b'0' ∷ show n else show n

-- What `snprintf` is asked to write.
pub uptime_text : ℕ → Text
uptime_text secs =
    show (secs / 86400)
    ++ (codes "d "
        ++ (two_digits (secs % 86400 / 3600)
            ++ (codes "h:"
                ++ (two_digits (secs % 3600 / 60)
                    ++ (codes "m:" ++ (two_digits (secs % 60) ++ codes "s"))))))

-- `buf` has room for 63 bytes and the NUL.
unfoldable pub format_uptime : ℕ → Text
unfolding uptime_text two_digits
format_uptime secs = take 63 (uptime_text secs)

pub get_formatted_uptime : {F : Type 0} ⦃d : Double F⦄ → (Text → Option F) → File → Text
unfolding get_uptime_seconds format_uptime
get_formatted_uptime read_double file = format_uptime (get_uptime_seconds read_double file)
