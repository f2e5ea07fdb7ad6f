-- ===== src/SystemInfo/Strings.antt =====
-- The string helpers of src/system_info.cpp.
use smooth_demon.Prelude.{
  ℕ, Bool, true, not, ◌&&◌, ◌||◌, [], ◌∷◌, ltb, ◌==◌, if◌then◌else◌, length, drop,
}
use smooth_demon.Text.{Text, codes, starts_with, is_digit, skip_while}
use smooth_demon.Text.Number.{trim_end}

abbrev pub is_margin : ℕ → Bool
is_margin c = c == b' ' || c == 9 || c == 10 || c == 13

unfoldable pub trim : Text → Text
unfolding skip_while trim_end
trim s = trim_end is_margin (skip_while is_margin s)

-- `t.back()` of the text `c ∷ s`.
unfoldable pub back : ℕ → Text → ℕ
back c [] = c
back c (d ∷ s) = back d s

-- The text without its last byte.
unfoldable pub drop_last : Text → Text
drop_last [] = []
drop_last (c ∷ []) = []
drop_last (c ∷ d ∷ s) = c ∷ drop_last (d ∷ s)

unfoldable pub unquote : Text → Text
unfolding back drop_last
unquote [] = []
unquote (c ∷ []) = c ∷ []
unquote (c ∷ d ∷ s) = if c == 34 && back d s == 34 then drop_last (d ∷ s) else c ∷ d ∷ s

unfoldable pub strip_quotes : Text → Text
unfolding trim unquote
strip_quotes s = unquote (trim s)

all_digits : Text → Bool
all_digits [] = true
all_digits (c ∷ s) = is_digit c && all_digits s

unfoldable pub is_card_dir_name : Text → Bool
unfolding all_digits
is_card_dir_name name =
    not (ltb (length name) 5) && (starts_with (codes "card") name && all_digits (drop 4 name))
