-- ===== src/Compute/Objects/Accounts.antt =====
-- How often calls release an object, where none of them creates one.
use smooth_demon.Prelude.{ℕ, ◌+◌, ◌≡◌, true, List, [], ◌∷◌, arith, Bool-cases, inl, inr, All}
use smooth_demon.Compute.Objects.{
  Object, same_object, Call, create, use_of, release, Runtime, one_if, allowed, perform, performs,
  perform_all,
}
use smooth_demon.Compute.Objects.Sharing.{enough, first_of}

abbrev pub Frees : Call → Type 0
Frees (create o) = ⊥
Frees (use_of o) = Unit
Frees (release o) = Unit

abbrev pub one_released : Object → Call → ℕ
one_released o (create x) = 0
one_released o (use_of x) = 0
one_released o (release x) = one_if (same_object o x)

unfoldable pub releases : Object → List Call → ℕ
releases o [] = 0
releases o (c ∷ cs) = one_released o c + releases o cs

released_one :
    (o x : Object) (r : Runtime)
    → allowed (release x) r ≡ true
    → r o ≡ perform (release x) r o + one_if (same_object o x)
unfolding allowed perform
released_one o x r ok = elim (Bool-cases (same_object o x)) [
  | inl same ↦ let some_left = enough x o r ok same in rw same (omega (arith, some_left))
  | inr other ↦ rw other (omega arith)
]

perform-account :
    (o : Object) (c : Call) (r : Runtime)
    → allowed c r ≡ true
    → Frees c
    → r o ≡ perform c r o + one_released o c
unfolding perform
perform-account o (create x) r ok impossible = absurd impossible
perform-account o (use_of x) r ok frees = omega arith
perform-account o (release x) r ok frees = released_one o x r ok

pub perform_all-account :
    (o : Object) (cs : List Call) (r : Runtime)
    → performs cs r ≡ true
    → All Frees cs
    → r o ≡ perform_all cs r o + releases o cs
unfolding perform_all releases
perform_all-account o [] r ok frees = omega arith
perform_all-account o (c ∷ cs) r ok (here, rest) =
    let (first, others) = first_of c cs r ok in
    let a = perform-account o c r first here in
    let b = perform_all-account o cs (perform c r) others rest in omega (arith, a, b)
