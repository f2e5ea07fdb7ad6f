-- ===== src/Compute/Objects.antt =====
-- The objects of the OpenCL runtime: how many references to each are held. The wrapper's calls that
-- create, use and release objects are a list, and the runtime a table of references that a call
-- changes; to use or release an object without a reference is a fault.
pub mod Sharing
pub mod Accounts
use smooth_demon.Prelude.{
  ℕ, ◌+◌, ◌-◌, ◌≡◌, refl, sym, ap, ◌∙◌, Bool, true, false, ◌&&◌, List, [], ◌∷◌, ◌++◌, ltb, ◌==◌,
  if◌then◌else◌, arith, Option, none, some, Bool-cases, inl, inr, ◌<◌,
}
use mathlib.Core.Path.{fun_ext, subst}

pub data Object : Type 0 where
  context queue program kernel buffer : ℕ → Object

abbrev pub same_object : Object → Object → Bool
same_object (context a) (context b) = a == b
same_object (queue a) (queue b) = a == b
same_object (program a) (program b) = a == b
same_object (kernel a) (kernel b) = a == b
same_object (buffer a) (buffer b) = a == b
same_object _ _ = false

pub data Call : Type 0 where
  create use_of release : Object → Call

-- A use of what a handle refers to.
abbrev pub use_if : (ℕ → Object) → Option ℕ → List Call
use_if kind none = []
use_if kind (some o) = use_of (kind o) ∷ []

abbrev pub Runtime : Type 0
Runtime = Object → ℕ

abbrev pub no_objects : Runtime
no_objects o = 0

abbrev pub one_if : Bool → ℕ
one_if b = if b then 1 else 0

unfoldable pub allowed : Call → Runtime → Bool
allowed (create o) r = true
allowed (use_of o) r = ltb 0 (r o)
allowed (release o) r = ltb 0 (r o)

unfoldable pub perform : Call → Runtime → Runtime
perform (create o) r x = r x + one_if (same_object x o)
perform (use_of o) r x = r x
perform (release o) r x = r x - one_if (same_object x o)

-- No call of the list is a fault.
unfoldable pub performs : List Call → Runtime → Bool
performs [] r = true
performs (c ∷ cs) r = allowed c r && performs cs (perform c r)

unfoldable pub perform_all : List Call → Runtime → Runtime
perform_all [] r = r
perform_all (c ∷ cs) r = perform_all cs (perform c r)

pub perform_all-append :
    (cs ds : List Call) (r : Runtime) → perform_all (cs ++ ds) r ≡ perform_all ds (perform_all cs r)
unfolding perform_all
perform_all-append [] ds r = refl
perform_all-append (c ∷ cs) ds r = perform_all-append cs ds (perform c r)

pub performs-append :
    (cs ds : List Call) (r : Runtime)
    → performs (cs ++ ds) r ≡ (performs cs r && performs ds (perform_all cs r))
unfolding performs perform_all
performs-append [] ds r = refl
performs-append (c ∷ cs) ds r = ground (arith, performs-append cs ds (perform c r))

-- The calls are no fault at some references, and turn them into others.
abbrev pub Turns : List Call → Runtime → Runtime → Type 0
Turns calls before after = (performs calls before ≡ true) × (perform_all calls before ≡ after)

pub Turns-append :
    (cs ds : List Call) (r s t : Runtime) → Turns cs r s → Turns ds s t → Turns (cs ++ ds) r t
Turns-append cs ds r s t (p, e) (q, f) =
    (rw (performs-append cs ds r, p, e) q, perform_all-append cs ds r ∙ ap (perform_all ds) e ∙ f)

pub Turns-nil : (r : Runtime) → Turns [] r r
unfolding performs perform_all
Turns-nil r = (refl, refl)

pub Turns-cons :
    (c : Call) (cs : List Call) (r s t : Runtime)
    → allowed c r ≡ true
    → perform c r ≡ s
    → Turns cs s t
    → Turns (c ∷ cs) r t
unfolding performs perform_all
Turns-cons c cs r s t ok e (p, f) = (rw (ok, e) p, rw (e, perform_all) f)
