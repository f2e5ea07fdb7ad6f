-- ===== src/Compute/Objects/Sharing.antt =====
-- Parts of a program that hold references beside each other.
use mathlib.Core.Path.{fun_ext, subst}
use smooth_demon.Prelude.{
  ℕ, ◌+◌, ◌≡◌, refl, sym, ap, true, List, [], ◌∷◌, ltb, ◌==◌, arith, Option, none, some, Bool-cases,
  ==_iff, inl, inr, ◌<◌,
}
use smooth_demon.Compute.Objects.{
  Object, context, queue, program, kernel, buffer, same_object, Call, create, use_of, release,
  use_if, Runtime, allowed, perform, performs, perform_all, Turns, Turns-cons,
}

same_object-eq : (x o : Object) → same_object x o ≡ true → x ≡ o
same_object-eq (context a) (context b) e = ap context ((==_iff a b).0 e)
same_object-eq (queue a) (queue b) e = ap queue ((==_iff a b).0 e)
same_object-eq (program a) (program b) e = ap program ((==_iff a b).0 e)
same_object-eq (kernel a) (kernel b) e = ap kernel ((==_iff a b).0 e)
same_object-eq (buffer a) (buffer b) e = ap buffer ((==_iff a b).0 e)
same_object-eq _ _ e = cc

number_refl : (a : ℕ) → (a == a) ≡ true
number_refl a = ground arith

pub same_object_refl : (o : Object) → same_object o o ≡ true
same_object_refl (context a) = number_refl a
same_object_refl (queue a) = number_refl a
same_object_refl (program a) = number_refl a
same_object_refl (kernel a) = number_refl a
same_object_refl (buffer a) = number_refl a

-- The references of two parts of a program.
abbrev pub both : Runtime → Runtime → Runtime
both b r x = b x + r x

allowed-both : (c : Call) (b r : Runtime) → allowed c r ≡ true → allowed c (both b r) ≡ true
unfolding allowed
allowed-both (create o) b r ok = refl
allowed-both (use_of o) b r ok = ground (arith, ok)
allowed-both (release o) b r ok = ground (arith, ok)

pub enough : (o x : Object) (r : Runtime) → ltb 0 (r o) ≡ true → same_object x o ≡ true → 0 < r x
enough o x r ok same = subst (λ y. 0 < r y) (sym (same_object-eq x o same)) (ground (arith, ok))

release-both :
    (o x : Object) (b r : Runtime)
    → ltb 0 (r o) ≡ true
    → perform (release o) (both b r) x ≡ b x + perform (release o) r x
unfolding perform
release-both o x b r ok = elim (Bool-cases (same_object x o)) [
  | inl same ↦ let some_left = enough o x r ok same in rw same (omega (arith, some_left))
  | inr other ↦ rw other (omega arith)
]

perform-both :
    (c : Call) (b r : Runtime) → allowed c r ≡ true → perform c (both b r) ≡ both b (perform c r)
unfolding allowed perform
perform-both (create o) b r ok = fun_ext (λ x. omega arith)
perform-both (use_of o) b r ok = refl
perform-both (release o) b r ok = fun_ext (λ x. release-both o x b r ok)

pub first_of :
    (c : Call) (cs : List Call) (r : Runtime)
    → performs (c ∷ cs) r ≡ true
    → (allowed c r ≡ true) × (performs cs (perform c r) ≡ true)
unfolding performs
first_of c cs r ok = ground (arith, ok)

-- What calls do with references, they do where another part holds some too.
pub Turns-both : (cs : List Call) (b r s : Runtime) → Turns cs r s → Turns cs (both b r) (both b s)
unfolding perform_all performs
Turns-both [] b r s (p, e) = (refl, ap (both b) e)
Turns-both (c ∷ cs) b r s (p, e) =
    let (ok, rest) = first_of c cs r p in
    Turns-cons c cs (both b r) (both b (perform c r)) (both b s) (allowed-both c b r ok)
      (perform-both c b r ok) (Turns-both cs b (perform c r) s (rest, e))

-- What a handle refers to may be used.
abbrev pub Holds : (ℕ → Object) → Option ℕ → Runtime → Type 0
Holds kind o r = performs (use_if kind o) r ≡ true

pub use_if-Turns :
    (kind : ℕ → Object) (o : Option ℕ) (r : Runtime) → Holds kind o r → Turns (use_if kind o) r r
unfolding performs perform_all perform
use_if-Turns kind none r holds = (refl, refl)
use_if-Turns kind (some o) r holds = (holds, refl)

pub Holds-both :
    (kind : ℕ → Object) (o : Option ℕ) (b r : Runtime) → Holds kind o b → Holds kind o (both b r)
unfolding performs allowed
Holds-both kind none b r holds = refl
Holds-both kind (some o) b r holds = ground (arith, holds)
