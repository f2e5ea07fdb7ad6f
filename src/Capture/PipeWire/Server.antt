-- ===== src/Capture/PipeWire/Server.antt =====
-- PipeWire's side: the objects that are alive, the newest first, and how often each buffer of the
-- stream is taken and not given back. Objects are destroyed in the reverse order of their creation;
-- another call on an object needs the object, and only a buffer that is taken can be given back.
use smooth_demon.Prelude.{
  ℕ, ◌+◌, ◌-◌, ◌≡◌, refl, ap, ◌∙◌, Bool, false, ◌&&◌, ◌||◌, List, [], ◌∷◌, ◌++◌, Option, none, some,
  ltb, ◌==◌, if◌then◌else◌,
}
use smooth_demon.Capture.PipeWire.{
  Object, main_loop, context, core, stream, Call, create, destroy, uses, dequeue, queue,
  null_access, dup, close, connect_fd,
}

pub record Server : Type 0 where
  pub objects : List Object
  pub taken : ℕ → ℕ

abbrev pub no_objects : Server
no_objects = record { objects = []; taken = λ b. 0 }

abbrev pub one_if : Bool → ℕ
one_if b = if b then 1 else 0

abbrev pub same_object : Object → Object → Bool
same_object (main_loop a) (main_loop b) = a == b
same_object (context a) (context b) = a == b
same_object (core a) (core b) = a == b
same_object (stream a) (stream b) = a == b
same_object _ _ = false

unfoldable pub has_object : Object → List Object → Bool
has_object o [] = false
has_object o (x ∷ xs) = same_object o x || has_object o xs

-- The objects without the newest, if that is the given one.
unfoldable pub pop : Object → List Object → Option (List Object)
pop o [] = none
pop o (x ∷ xs) = if same_object o x then some xs else none

abbrev pub with_objects : Option (List Object) → Server → Option Server
with_objects none v = none
with_objects (some objects) v = some (record v { objects = objects })

unfoldable pub perform : Call → Server → Option Server
unfolding pop has_object
perform (create o) v = some (record v { objects = o ∷ v.objects })
perform (destroy (stream s)) v =
    with_objects (pop (stream s) v.objects) (record v { taken = λ b. 0 })
perform (destroy o) v = with_objects (pop o v.objects) v
perform (uses o) v = if has_object o v.objects then some v else none
perform (dequeue s b) v =
    if has_object (stream s) v.objects
    then some (record v { taken = λ x. v.taken x + one_if (x == b) })
    else none
perform (queue s b) v =
    if has_object (stream s) v.objects && ltb 0 (v.taken b)
    then some (record v { taken = λ x. v.taken x - one_if (x == b) })
    else none
perform null_access v = none
perform (dup d) v = some v
perform (close d) v = some v
perform (connect_fd d taken) v = some v

abbrev pub and_then : Option Server → (Server → Option Server) → Option Server
and_then none f = none
and_then (some v) f = f v

unfoldable pub perform_all : List Call → Server → Option Server
perform_all [] v = some v
perform_all (c ∷ cs) v = and_then (perform c v) (perform_all cs)

pub perform_all-append :
    (cs ds : List Call) (v : Server)
    → perform_all (cs ++ ds) v ≡ and_then (perform_all cs v) (perform_all ds)
unfolding perform_all
perform_all-append [] ds v = refl
perform_all-append (c ∷ cs) ds v = then_all (perform c v) (perform_all-append cs ds)
  where
    then_all :
        (o : Option Server)
        → ((w : Server) → perform_all (cs ++ ds) w ≡ and_then (perform_all cs w) (perform_all ds))
        → and_then o (perform_all (cs ++ ds))
          ≡ and_then (and_then o (perform_all cs)) (perform_all ds)
    then_all none rest = refl
    then_all (some w) rest = rest w

-- The calls are all possible, and lead from one state of the server to another.
abbrev pub Leads : List Call → Server → Server → Type 0
Leads calls v w = perform_all calls v ≡ some w

pub Leads-append :
    (cs ds : List Call) (u v w : Server) → Leads cs u v → Leads ds v w → Leads (cs ++ ds) u w
Leads-append cs ds u v w first second =
    perform_all-append cs ds u ∙ ap (λ o. and_then o (perform_all ds)) first ∙ second

pub Leads-cons :
    (c : Call) (cs : List Call) (u v w : Server)
    → perform c u ≡ some v
    → Leads cs v w
    → Leads (c ∷ cs) u w
unfolding perform_all
Leads-cons c cs u v w first second = ap (λ o. and_then o (perform_all cs)) first ∙ second
