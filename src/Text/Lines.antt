-- ===== src/Text/Lines.antt =====
-- Texts that are written line by line, and trimmed parts of lines.
use smooth_demon.Prelude.{ℕ, ◌≡◌, refl, Bool, false, List, [], ◌∷◌, ◌++◌, ◌==◌, All}
use smooth_demon.Text.{Text, lines}
use smooth_demon.Text.Number.{trim_end}

unfoldable pub unlines : List Text → Text
unlines [] = []
unlines (l ∷ ls) = l ++ (10 ∷ unlines ls)

-- No byte is a newline.
abbrev pub OneLine : Text → Type 0
OneLine = All (λ c. (c == 10) ≡ false)

lines-newline : (l rest : Text) → OneLine l → lines (l ++ (10 ∷ rest)) ≡ l ∷ lines rest
unfolding lines
lines-newline [] rest h = refl
lines-newline (c ∷ l) rest h = rw (lines-newline l rest h.1, h.0)

pub lines-unlines : (ls : List Text) → All OneLine ls → lines (unlines ls) ≡ ls
unfolding unlines lines
lines-unlines [] h = refl
lines-unlines (l ∷ ls) h = rw (lines-newline l (unlines ls) h.0, lines-unlines ls h.1)

-- Nothing is trimmed where no byte is in the margin.
pub trim_end-none : (p : ℕ → Bool) (s : Text) → All (λ c. p c ≡ false) s → trim_end p s ≡ s
unfolding trim_end
trim_end-none p [] h = refl
trim_end-none p (c ∷ []) h = rw (h.0)
trim_end-none p (c ∷ d ∷ s) h = rw (trim_end-none p (d ∷ s) h.1)
