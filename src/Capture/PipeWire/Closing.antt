-- ===== src/Capture/PipeWire/Closing.antt =====
-- The descriptors in every run of a capture.
use smooth_demon.Prelude.{
  ℕ, ◌≡◌, refl, sym, Bool, true, false, List, [], ◌∷◌, Option, none, some, arith, length,
}
use mathlib.Core.Path.{subst}
use smooth_demon.Prelude.Int.{ℤ}
use smooth_demon.Capture.Frames.{VideoInfo}
use smooth_demon.Capture.PipeWire.{
  Object, Call, create, destroy, dup, close, connect_fd, PipeWireCapture, Recyclers, StartAnswers,
  Started, after_call, destroy_if, start_stream, start_core, start_context, start_loop, start,
  stop_rest,
}
use smooth_demon.Capture.PipeWire.Handlers.{
  StreamState, on_state_changed, on_param_changed, handle_process,
}
use smooth_demon.Capture.PipeWire.Steps.{
  after_start, after_process, System, new_system, Step, starts, processes, changes_state,
  changes_param, drops, stops, tears_down, Run, stays, then_step,
}
use smooth_demon.Capture.PipeWire.Quiet.{
  recycle-IsQuiet, process_stream-IsQuiet, param_calls-IsQuiet, stop_loop-IsQuiet,
}
use smooth_demon.Capture.PipeWire.Descriptors.{
  no_descriptors, perform, perform_all, removed, failed_connects, size_of, Moves, Moves-append,
  Moves-quiet, tail,
}

-- What a part of `Start` does, from one core to another.
abbrev Starts : Started → Option ℕ → Type 0
Starts (done, c, h, calls) before = Moves calls before c.core

start_stream-Moves :
    (new_stream : Option ℕ) (connects : Bool) (c : PipeWireCapture) (h : Recyclers)
    → Starts (start_stream new_stream connects c h) c.core
unfolding start_stream perform_all perform failed_connects
start_stream-Moves none connects c h = Moves-quiet [] c.core (λ v. refl, refl)
start_stream-Moves (some s) false c h =
    Moves-quiet (create (Object.stream s) ∷ []) c.core (λ v. refl, refl)
start_stream-Moves (some s) true c h =
    Moves-quiet (create (Object.stream s) ∷ []) c.core (λ v. refl, refl)

-- A call before a part.
calls_first :
    (call : Call) (r : Started) (before after : Option ℕ)
    → Moves (call ∷ []) before after
    → Starts r after
    → Starts (after_call call r) before
calls_first call (done, c, h, calls) before after first rest =
    Moves-append (call ∷ []) calls before after c.core first rest

creates-Moves : (o : Object) (core : Option ℕ) → Moves (create o ∷ []) core core
unfolding perform_all perform failed_connects
creates-Moves o core = Moves-quiet (create o ∷ []) core (λ v. refl, refl)

removed_here : (d : ℕ) (ds : List ℕ) → removed d (d ∷ ds) ≡ some ds
unfolding removed
removed_here d ds = ground arith

removed-none : (d : ℕ) (ds : List ℕ) → ds ≡ [] → removed d ds ≡ none
unfolding removed
removed-none d ds e = rw (e, removed) refl

connect-Moves : (d k : ℕ) → Moves (dup d ∷ connect_fd d true ∷ []) none (some k)
unfolding perform_all perform failed_connects
connect-Moves d k v own cores = rw (removed_here d v.own) (own, omega (arith, cores), omega arith)

fail-Moves : (d : ℕ) → Moves (dup d ∷ connect_fd d false ∷ close d ∷ []) none none
unfolding perform_all perform failed_connects
fail-Moves d v own cores =
    rw (removed_here d v.own, removed-none d v.own own) (own, cores, omega arith)

start_core-Moves :
    (dup_fd new_core : Option ℕ) (a : StartAnswers) (c : PipeWireCapture) (h : Recyclers)
    → c.core ≡ none
    → Starts (start_core dup_fd new_core a c h) none
unfolding start_core perform_all failed_connects
start_core-Moves none new_core a c h e = rw e (Moves-quiet [] none (λ v. refl, refl))
start_core-Moves (some d) none a c h e = fail-Moves d
start_core-Moves (some d) (some k) a c h e =
    let c' = record c { core = some k } in
    let (done, c'', h', calls) = start_stream a.new_stream a.connects c' h in
    Moves-append (dup d ∷ connect_fd d true ∷ []) (create (Object.core k) ∷ calls) none (some k)
      c''.core (connect-Moves d k)
      (calls_first (create (Object.core k)) (done, c'', h', calls) (some k) (some k)
        (creates-Moves (Object.core k) (some k)) (start_stream-Moves a.new_stream a.connects c' h))

start_context-Moves :
    (new_context : Option ℕ) (a : StartAnswers) (c : PipeWireCapture) (h : Recyclers)
    → c.core ≡ none
    → Starts (start_context new_context a c h) none
unfolding start_context perform_all failed_connects
start_context-Moves none a c h e = rw e (Moves-quiet [] none (λ v. refl, refl))
start_context-Moves (some x) a c h e =
    let c' = record c { ctx = some x } in
    calls_first (create (Object.context x)) (start_core a.dup_fd a.new_core a c' h) none none
      (creates-Moves (Object.context x) none) (start_core-Moves a.dup_fd a.new_core a c' h e)

start-Moves :
    (a : StartAnswers) (c : PipeWireCapture) (h : Recyclers)
    → c.core ≡ none
    → Starts (start a c h) none
unfolding start start_loop perform_all failed_connects
start-Moves a c h e = by_loop a.new_loop
  where
    by_loop : (new_loop : Option ℕ) → Starts (start_loop new_loop a c h) none
    by_loop none = rw e (Moves-quiet [] none (λ v. refl, refl))
    by_loop (some l) =
        let c' = record c { loop = some l } in
        calls_first (create (Object.main_loop l)) (start_context a.new_context a c' h) none none
          (creates-Moves (Object.main_loop l) none) (start_context-Moves a.new_context a c' h e)

-- A kind of object other than the core.
data Kind : (ℕ → Object) → Type 0 where
  is_stream : Kind Object.stream
  is_context : Kind Object.context
  is_main_loop : Kind Object.main_loop

destroy_if-Moves :
    (kind : ℕ → Object) (o core : Option ℕ) → Kind kind → Moves (destroy_if kind o) core core
unfolding destroy_if perform_all perform failed_connects
destroy_if-Moves kind none core k = Moves-quiet [] core (λ v. refl, refl)
destroy_if-Moves _ (some o) core is_stream =
    Moves-quiet (destroy (Object.stream o) ∷ []) core (λ v. refl, refl)
destroy_if-Moves _ (some o) core is_context =
    Moves-quiet (destroy (Object.context o) ∷ []) core (λ v. refl, refl)
destroy_if-Moves _ (some o) core is_main_loop =
    Moves-quiet (destroy (Object.main_loop o) ∷ []) core (λ v. refl, refl)

length-tail : (xs : List ℕ) → length xs ≡ 1 → length (tail xs) ≡ 0
length-tail [] e = cc
length-tail (x ∷ xs) e = omega (arith, e)

destroy_core-Moves : (core : Option ℕ) → Moves (destroy_if Object.core core) core none
unfolding destroy_if perform_all perform failed_connects
destroy_core-Moves none v own cores = (own, cores, omega arith)
destroy_core-Moves (some k) v own cores = (own, length-tail v.of_cores cores, omega arith)

stop_rest-Moves : (c : PipeWireCapture) → Moves (stop_rest c).1 c.core none
unfolding stop_rest
stop_rest-Moves c =
    Moves-append (destroy_if Object.stream c.stream) _ c.core c.core none
      (destroy_if-Moves Object.stream c.stream c.core is_stream)
      (Moves-append (destroy_if Object.core c.core) _ c.core none none (destroy_core-Moves c.core) (
        Moves-append (destroy_if Object.context c.ctx) _ none none none
          (destroy_if-Moves Object.context c.ctx none is_context)
          (destroy_if-Moves Object.main_loop c.loop none is_main_loop)))

on_state_changed_keeps_core :
    (old_s new_s : StreamState) (c : PipeWireCapture)
    → (on_state_changed old_s new_s c).core ≡ c.core
unfolding on_state_changed
on_state_changed_keeps_core old_s new_s c = ground arith

on_param_changed_keeps_core :
    (param : Option (VideoInfo × Bool)) (now : ℤ) (c : PipeWireCapture)
    → (on_param_changed param now c).core ≡ c.core
unfolding on_param_changed
on_param_changed_keeps_core none now c = refl
on_param_changed_keeps_core (some (format, has_modifier)) now c = refl

Step-Moves :
    {s t : System} {calls : List Call} → Step s calls t → Moves calls s.capture.core t.capture.core
unfolding after_start after_process handle_process perform_all failed_connects stop_rest
Step-Moves {s} (starts a going off l x k e) =
    subst (λ o. Moves (start a s.capture s.recyclers).3 o (start a s.capture s.recyclers).1.core)
      (sym k) (start-Moves a s.capture s.recyclers k)
Step-Moves {s} (processes state dequeued now on) =
    Moves-quiet _ s.capture.core
      (process_stream-IsQuiet s.capture.stream state dequeued now s.capture s.recyclers)
Step-Moves {s} (changes_state old_s new_s) =
    rw (on_state_changed_keeps_core old_s new_s s.capture)
      (Moves-quiet [] s.capture.core (λ v. refl, refl))
Step-Moves {s} (changes_param param now on) =
    rw (on_param_changed_keeps_core param now s.capture)
      (Moves-quiet _ s.capture.core (param_calls-IsQuiet param s.capture))
Step-Moves {s} (drops before after f e) =
    Moves-quiet _ s.capture.core
      (recycle-IsQuiet s.recyclers f.on_frame_done.recycler f.on_frame_done.buffer)
Step-Moves {s} (stops going) = Moves-quiet _ s.capture.core (stop_loop-IsQuiet s.capture)
Step-Moves {s} (tears_down stopping) = stop_rest-Moves s.capture

Run-Moves :
    {t : System} {calls : List Call} → Run new_system calls t → Moves calls none t.capture.core
unfolding perform_all failed_connects new_system
Run-Moves stays = Moves-quiet [] none (λ v. refl, refl)
Run-Moves (then_step {calls} {more} run step) =
    Moves-append calls more none _ _ (Run-Moves run) (Step-Moves step)

-- In every run of a capture, each descriptor that `Start` duplicates is given to PipeWire: the program
-- keeps none, and the only one that is open is that of the core, if there is one. But a descriptor
-- that is closed already is closed again exactly as often as `pw_context_connect_fd` has failed.
pub Run-descriptors :
    (t : System) (calls : List Call)
    → Run new_system calls t
    → let v = perform_all calls no_descriptors in
      (v.own ≡ [])
      × (length v.of_cores ≡ size_of t.capture.core)
      × (v.bad_closes ≡ failed_connects calls)
Run-descriptors t calls run =
    let (own, cores, bad) = Run-Moves run no_descriptors refl refl in
    (own, cores, omega (arith, bad))
