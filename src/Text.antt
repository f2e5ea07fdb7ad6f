-- ===== src/Text.antt =====
-- Text as lists of bytes, and what the program uses of `std::string`, `std::getline`, `std::stoull`-like
-- conversions and `<cctype>` in the C locale.
pub mod Decimal
pub mod Number
pub mod Lines
use Prim.Native.Char.{code}
use Prim.Native.String
use Prim.Native.String.{String}
use smooth_demon.Prelude.{
  ℕ, zero, suc, ◌+◌, ◌-◌, ◌*◌, ◌%◌, ◌^◌, ◌≡◌, Bool, true, false, not, ◌&&◌, ◌||◌, List, [], ◌∷◌,
  ◌++◌, Option, none, some, leb, ◌==◌, if◌then◌else◌,
}

abbrev pub Text : Type 0
Text = List ℕ

-- The bytes of an ASCII literal.
abbrev pub codes : String → Text
codes String.[] = []
codes (String.◌∷◌ c s) = code c ∷ codes s

unfoldable pub is_digit : ℕ → Bool
is_digit c = leb b'0' c && leb c b'9'

-- ' ', '\t', '\n', '\v', '\f', '\r': what `std::isspace` accepts.
unfoldable pub is_space : ℕ → Bool
is_space c = c == 32 || (leb 9 c && leb c 13)

unfoldable pub text_eq : Text → Text → Bool
text_eq [] [] = true
text_eq (a ∷ s) (b ∷ t) = a == b && text_eq s t
text_eq _ _ = false

unfoldable pub is_empty : Text → Bool
is_empty [] = true
is_empty (c ∷ s) = false

-- `line.rfind(prefix, 0) == 0`
unfoldable pub starts_with : Text → Text → Bool
starts_with [] s = true
starts_with (a ∷ prefix) [] = false
starts_with (a ∷ prefix) (c ∷ s) = a == c && starts_with prefix s

-- `s.find(part) != npos`
unfoldable pub contains : Text → Text → Bool
unfolding starts_with is_empty
contains part [] = is_empty part
contains part (c ∷ s) = starts_with part (c ∷ s) || contains part s

-- The text behind the first occurrence of `c`: `s.substr(s.find(c) + 1)`.
unfoldable pub after_first : ℕ → Text → Option Text
after_first c [] = none
after_first c (a ∷ s) = if a == c then some s else after_first c s

-- The text behind the last occurrence of `c`: `s.substr(s.rfind(c) + 1)`.
unfoldable pub after_last : ℕ → Text → Option Text
after_last c [] = none
after_last c (a ∷ s) = elim (after_last c s) [
  | some t ↦ some t
  | none ↦ if a == c then some s else none
]

-- The lines that `std::getline` reads from a file: a last line may lack its newline, and nothing
-- follows a final newline.
add_to_first : ℕ → List Text → List Text
add_to_first c [] = (c ∷ []) ∷ []
add_to_first c (l ∷ ls) = (c ∷ l) ∷ ls

unfoldable pub lines : Text → List Text
unfolding add_to_first
lines [] = []
lines (c ∷ s) = if c == 10 then [] ∷ lines s else add_to_first c (lines s)

unfoldable pub skip_while : (ℕ → Bool) → Text → Text
skip_while p [] = []
skip_while p (c ∷ s) = if p c then skip_while p s else c ∷ s

-- A file: `none` where it cannot be opened.
abbrev pub File : Type 0
File = Option Text
