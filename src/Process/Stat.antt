-- ===== src/Process/Stat.antt =====
-- Reading the fields of /proc/<pid>/stat, of which the second is a name in parentheses.
use smooth_demon.Prelude.{
  ℕ, suc, ◌<◌, ◌^◌, ◌≡◌, refl, sym, ap, ◌∙◌, true, false, not, List, [], ◌∷◌, ◌++◌, none, some,
  arith, All, All-append, All-imp, length, ◌==◌,
}
use smooth_demon.Prelude.Words.{add64}
use smooth_demon.Text.{Text, is_space, is_digit, after_last, lines, skip_while, is_empty}
use smooth_demon.Text.Decimal.{show, show_lem}
use smooth_demon.Text.Number.{skip_word, extract_u64-show, first_line}
use smooth_demon.Process.{stat, skip_words, read_ticks, read_fields, read_stat}

-- No closing parenthesis.
abbrev pub NoParen : Text → Type 0
NoParen = All (λ c. (c == b')') ≡ false)

after_last-absent : (s : Text) → NoParen s → after_last b')' s ≡ none
unfolding after_last
after_last-absent [] h = refl
after_last-absent (c ∷ s) h = rw (after_last-absent s h.1, h.0) refl

after_last-found :
    (s t : Text) → after_last b')' t ≡ none → after_last b')' (s ++ (b')' ∷ t)) ≡ some t
unfolding after_last
after_last-found [] t h = rw h refl
after_last-found (c ∷ s) t h = rw (after_last-found s t h) refl

-- A field: not empty, and without white space and closing parenthesis.
unfoldable pub IsWord : Text → Type 0
IsWord w = (is_empty w ≡ false) × All (λ c. is_space c ≡ false) w × NoParen w

-- Fields, each behind a space, and what follows.
unfoldable pub join : List Text → Text → Text
join [] rest = rest
join (w ∷ ws) rest = b' ' ∷ (w ++ join ws rest)

skip_while-word :
    (w rest : Text)
    → All (λ c. is_space c ≡ false) w
    → skip_while (λ c. not (is_space c)) (w ++ (b' ' ∷ rest)) ≡ b' ' ∷ rest
unfolding skip_while is_space
skip_while-word [] rest h = refl
skip_while-word (c ∷ w) rest h = ground (arith, skip_while-word w rest h.1)

skip_word-word :
    (w rest : Text) → IsWord w → skip_word (b' ' ∷ (w ++ (b' ' ∷ rest))) ≡ some (b' ' ∷ rest)
unfolding skip_word skip_while is_space IsWord is_empty
skip_word-word [] rest h = ground arith
skip_word-word (c ∷ w) rest h = ground (arith, skip_while-word w rest h.1.1)

join-space : (ws : List Text) (rest : Text) → (t : Text) × (join ws (b' ' ∷ rest) ≡ b' ' ∷ t)
unfolding join
join-space [] rest = (rest, refl)
join-space (w ∷ ws) rest = (w ++ join ws (b' ' ∷ rest), refl)

skip_words-join :
    (ws : List Text) (rest : Text)
    → All IsWord ws
    → skip_words (length ws) (join ws (b' ' ∷ rest)) ≡ some (b' ' ∷ rest)
unfolding skip_words join
skip_words-join [] rest h = refl
skip_words-join (w ∷ ws) rest h =
    let (t, e) = join-space ws rest in
    rw (e, skip_words, skip_word-word w t h.0, sym e) (skip_words-join ws rest h.1)

NoParen-join :
    (ws : List Text) (rest : Text) → All IsWord ws → NoParen rest → NoParen (join ws rest)
unfolding join IsWord
NoParen-join [] rest h n = n
NoParen-join (w ∷ ws) rest h n = (
  refl,
  All-append (λ c. (c == b')') ≡ false) w (join ws rest) h.0.2 (NoParen-join ws rest h.1 n),
)

digit-NoParen : (c : ℕ) → is_digit c ≡ true → (c == b')') ≡ false
unfolding is_digit
digit-NoParen c h = ground arith

-- The two counts, and what follows them.
abbrev pub ticks_text : ℕ → ℕ → Text → Text
ticks_text utime stime rest = b' ' ∷ (show utime ++ (b' ' ∷ (show stime ++ (b' ' ∷ rest))))

ticks_text-NoParen :
    (utime stime : ℕ) (rest : Text) → NoParen rest → NoParen (ticks_text utime stime rest)
ticks_text-NoParen utime stime rest n =
    let P : ℕ → Type 0 = λ c. (c == b')') ≡ false in
    (
      refl,
      All-append P (show utime) _
          (All-imp (λ c. is_digit c ≡ true) P (show utime) digit-NoParen (show_lem utime).1)
          (
            refl,
            All-append P (show stime) _
                (All-imp (λ c. is_digit c ≡ true) P (show stime) digit-NoParen (show_lem stime).1)
                (refl, n),
          ),
    )

skip_words-space : (n : ℕ) (s : Text) → skip_words (suc n) (b' ' ∷ s) ≡ skip_words (suc n) s
unfolding skip_words skip_word skip_while is_space
skip_words-space n s = refl

read_ticks-fields :
    (ws : List Text) (utime stime : ℕ) (rest t : Text)
    → join ws (ticks_text utime stime rest) ≡ b' ' ∷ t
    → length ws ≡ 10
    → All IsWord ws
    → utime < 2 ^ 64
    → stime < 2 ^ 64
    → read_ticks t ≡ some (add64 utime stime)
unfolding read_ticks is_digit
read_ticks-fields ws utime stime rest t e ten words u s =
    let skipped : skip_words 10 t ≡ some (ticks_text utime stime rest) =
      sym (skip_words-space 9 t)
      ∙ ap (skip_words 10) (sym e)
      ∙ ap (λ n. skip_words n (join ws (ticks_text utime stime rest))) (sym ten)
      ∙ skip_words-join ws _ words in
    rw
      (
        read_ticks,
        skipped,
        extract_u64-show utime (b' ' ∷ (show stime ++ (b' ' ∷ rest))) u refl,
        extract_u64-show stime (b' ' ∷ rest) s refl,
      )
      refl

-- Reading /proc/<pid>/stat gives back the state and the sum of the two tick counts modulo 2^64,
-- whatever the process name in the parentheses is, parentheses, spaces and numbers in it included:
-- for a first line of anything, a parenthesis, a space, the state, ten fields, the counts below
-- 2^64 and anything without a parenthesis.
pub read_stat-fields :
    (text before : Text) (state : ℕ) (ws : List Text) (utime stime : ℕ) (rest : Text)
    → first_line (lines text)
      ≡ before ++ (b')' ∷ b' ' ∷ state ∷ join ws (ticks_text utime stime rest))
    → length ws ≡ 10
    → All IsWord ws
    → (state == b')') ≡ false
    → NoParen rest
    → utime < 2 ^ 64
    → stime < 2 ^ 64
    → read_stat (some text) ≡ stat state (add64 utime stime)
unfolding read_stat read_fields is_digit
read_stat-fields text before state ws utime stime rest line ten words no_paren none_after u s =
    let (t, e) = join-space ws _ in
    let after = join ws (ticks_text utime stime rest) in
    let absent : NoParen (b' ' ∷ state ∷ after) = (
      refl,
      (no_paren, NoParen-join ws _ words (ticks_text-NoParen utime stime rest none_after)),
    ) in
    rw
      (
        read_stat,
        line,
        after_last-found before (b' ' ∷ state ∷ after) (after_last-absent _ absent),
        e,
        read_fields,
        read_ticks-fields ws utime stime rest t e ten words u s,
      )
      refl
