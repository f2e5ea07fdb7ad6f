-- ===== src/Capture/PipeWire/Descriptors.antt =====
-- The descriptors that `Start` duplicates. PipeWire documents that `pw_context_connect_fd` takes the
-- descriptor: it is closed when the core is disconnected, or at once where the call fails.
use smooth_demon.Prelude.{
  ℕ, ◌+◌, ◌≡◌, refl, true, false, List, [], ◌∷◌, ◌++◌, Option, none, some, ◌==◌, if◌then◌else◌,
  arith, length,
}
use smooth_demon.Capture.PipeWire.{core, Call, destroy, dup, close, connect_fd}

-- The descriptors that the program has open and not given away, those that cores have, and how often
-- a descriptor was closed that the program has not open any more.
pub record Descriptors : Type 0 where
  pub own : List ℕ
  pub of_cores : List ℕ
  pub bad_closes : ℕ

abbrev pub no_descriptors : Descriptors
no_descriptors = record { own = []; of_cores = []; bad_closes = 0 }

-- The list without the first such element, none where there is none.
unfoldable pub removed : ℕ → List ℕ → Option (List ℕ)
removed d [] = none
removed d (x ∷ xs) =
    if x == d then some xs else elim (removed d xs) [ none ↦ none | some ys ↦ some (x ∷ ys) ]

abbrev pub or_list : List ℕ → Option (List ℕ) → List ℕ
or_list xs none = xs
or_list xs (some ys) = ys

abbrev pub close_own : Option (List ℕ) → Descriptors → Descriptors
close_own none v = record v { bad_closes = v.bad_closes + 1 }
close_own (some ds) v = record v { own = ds }

abbrev pub tail : List ℕ → List ℕ
tail [] = []
tail (x ∷ xs) = xs

unfoldable pub perform : Call → Descriptors → Descriptors
unfolding removed
perform (dup d) v = record v { own = d ∷ v.own }
perform (connect_fd d true) v = record v {
  own = or_list v.own (removed d v.own);
  of_cores = d ∷ v.of_cores;
}
perform (connect_fd d false) v = record v { own = or_list v.own (removed d v.own) }
perform (close d) v = close_own (removed d v.own) v
perform (destroy (core k)) v = record v { of_cores = tail v.of_cores }
perform _ v = v

unfoldable pub perform_all : List Call → Descriptors → Descriptors
perform_all [] v = v
perform_all (c ∷ cs) v = perform_all cs (perform c v)

abbrev pub is_failed : Call → ℕ
is_failed (connect_fd d false) = 1
is_failed _ = 0

unfoldable pub failed_connects : List Call → ℕ
failed_connects [] = 0
failed_connects (c ∷ cs) = is_failed c + failed_connects cs

perform_all-append :
    (cs ds : List Call) (v : Descriptors)
    → perform_all (cs ++ ds) v ≡ perform_all ds (perform_all cs v)
unfolding perform_all
perform_all-append [] ds v = refl
perform_all-append (c ∷ cs) ds v = perform_all-append cs ds (perform c v)

abbrev pub size_of : Option ℕ → ℕ
size_of none = 0
size_of (some k) = 1

-- What calls do with a program that has no descriptor open itself, where the core was one thing and
-- is another behind them.
abbrev pub Moves : List Call → Option ℕ → Option ℕ → Type 0
Moves cs before after =
    (v : Descriptors)
    → v.own ≡ []
    → length v.of_cores ≡ size_of before
    → ((perform_all cs v).own ≡ [])
      × (length (perform_all cs v).of_cores ≡ size_of after)
      × ((perform_all cs v).bad_closes ≡ v.bad_closes + failed_connects cs)

failed_connects-append :
    (cs ds : List Call) → failed_connects (cs ++ ds) ≡ failed_connects cs + failed_connects ds
unfolding failed_connects
failed_connects-append [] ds = omega arith
failed_connects-append (c ∷ cs) ds = omega (arith, failed_connects-append cs ds)

pub Moves-append :
    (cs ds : List Call) (a b c : Option ℕ) → Moves cs a b → Moves ds b c → Moves (cs ++ ds) a c
Moves-append cs ds a b c first second v own cores =
    let w = perform_all cs v in
    let (own', cores', bad) = first v own cores in
    let (own'', cores'', bad') = second w own' cores' in
    rw (perform_all-append cs ds v, failed_connects-append cs ds)
      (own'', cores'', omega (arith, bad, bad'))

-- Calls that concern no descriptor.
abbrev pub IsQuiet : List Call → Type 0
IsQuiet cs = ((v : Descriptors) → perform_all cs v ≡ v) × (failed_connects cs ≡ 0)

pub Moves-quiet : (cs : List Call) (a : Option ℕ) → IsQuiet cs → Moves cs a a
Moves-quiet cs a (same, none_failed) v own cores =
    rw (same v, none_failed) (own, cores, omega arith)
