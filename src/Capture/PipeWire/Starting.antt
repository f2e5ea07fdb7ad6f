-- ===== src/Capture/PipeWire/Starting.antt =====
-- `Start`, on a capture without objects.
use mathlib.Core.Path.{subst}
use smooth_demon.Prelude.{
  ℕ, ◌≡◌, refl, sym, ◌∙◌, Bool, true, false, List, [], ◌∷◌, Option, none, some,
}
use smooth_demon.Capture.Frames.{Frame}
use smooth_demon.Capture.PipeWire.{
  Call, dup, close, connect_fd, Object, create, PipeWireCapture, Recyclers, StartAnswers, Started,
  after_call, start_stream, start_core, start_context, start_loop, start,
}
use smooth_demon.Capture.PipeWire.Server.{Server, perform, perform_all, Leads, Leads-cons}
use smooth_demon.Capture.PipeWire.Steps.{System, after_start}
use smooth_demon.Capture.PipeWire.Idle.{Idle, system, Idle→Mirrors, changes, runs-Mirrors}
use smooth_demon.Capture.PipeWire.Mirrors.{objects_of, Mirrors}

-- What a part of `Start` gives mirrors the server behind its calls.
abbrev Starts : Started → List Frame → Server → Type 0
Starts (done, c, h, calls) fs v = (w : Server) × (Leads calls v w × Mirrors (system c h fs) w)

fails :
    (c : PipeWireCapture) (h : Recyclers) (fs : List Frame) (v : Server)
    → Idle c h fs v
    → Starts (false, c, h, []) fs v
unfolding perform_all
fails c h fs v i = (v, (refl, Idle→Mirrors c h fs v i))

start_stream-Mirrors :
    (new_stream : Option ℕ) (connects : Bool) (c : PipeWireCapture) (h : Recyclers)
    (fs : List Frame) (v : Server)
    → Idle c h fs v
    → c.stream ≡ none
    → Starts (start_stream new_stream connects c h) fs v
unfolding start_stream perform_all perform objects_of
start_stream-Mirrors none connects c h fs v i e =
    fails (record c { stream = none }) h fs v
      (changes c (record c { stream = none }) h fs v v i (i.objects ∙ rw e refl) refl refl refl
        refl)
start_stream-Mirrors (some s) false c h fs v i e =
    let v' = record v { objects = Object.stream s ∷ v.objects } in
    let c' = record c { stream = some s } in
    let i' = changes c c' h fs v v' i (rw (i.objects, e) refl) refl refl refl refl in
    (v', (refl, Idle→Mirrors c' h fs v' i'))
start_stream-Mirrors (some s) true c h fs v i e =
    let v' = record v { objects = Object.stream s ∷ v.objects } in
    let c' = record c { stream = some s } in
    let i' = changes c c' h fs v v' i (rw (i.objects, e) refl) refl refl refl refl in
    (v', (refl, runs-Mirrors s c h fs v' i'))

-- A call that creates an object comes before the rest.
creates :
    (o : Object) (r : Started) (fs : List Frame) (v : Server)
    → Starts r fs (record v { objects = o ∷ v.objects })
    → Starts (after_call (create o) r) fs v
unfolding perform
creates o (done, c, h, calls) fs v (w, (leads, m)) =
    (w, (Leads-cons (create o) calls v (record v { objects = o ∷ v.objects }) w refl leads, m))

-- A call that does not concern the objects comes before the rest.
passes :
    (call : Call) (r : Started) (fs : List Frame) (v : Server)
    → perform call v ≡ some v
    → Starts r fs v
    → Starts (after_call call r) fs v
passes call (done, c, h, calls) fs v e (w, (leads, m)) =
    (w, (Leads-cons call calls v v w e leads, m))

start_core-Mirrors :
    (dup_fd new_core : Option ℕ) (a : StartAnswers) (c : PipeWireCapture) (h : Recyclers)
    (fs : List Frame) (v : Server)
    → Idle c h fs v
    → c.core ≡ none
    → c.stream ≡ none
    → Starts (start_core dup_fd new_core a c h) fs v
unfolding start_core objects_of perform
start_core-Mirrors none new_core a c h fs v i e f = fails c h fs v i
start_core-Mirrors (some d) none a c h fs v i e f =
    let c' = record c { core = none } in
    let r : Started = (false, c', h, []) in
    let i' = changes c c' h fs v v i (i.objects ∙ rw e refl) refl refl refl refl in
    passes (dup d) (after_call (connect_fd d false) (after_call (close d) r)) fs v refl (
      passes (connect_fd d false) (after_call (close d) r) fs v refl
        (passes (close d) r fs v refl (fails c' h fs v i')))
start_core-Mirrors (some d) (some k) a c h fs v i e f =
    let v' = record v { objects = Object.core k ∷ v.objects } in
    let c' = record c { core = some k } in
    let i' = changes c c' h fs v v' i (rw (i.objects, e, f) refl) refl refl refl refl in
    let r = start_stream a.new_stream a.connects c' h in
    let r' = after_call (create (Object.core k)) r in
    passes (dup d) (after_call (connect_fd d true) r') fs v refl (
      passes (connect_fd d true) r' fs v refl (
        creates (Object.core k) r fs v
          (start_stream-Mirrors a.new_stream a.connects c' h fs v' i' f)))

start_context-Mirrors :
    (new_context : Option ℕ) (a : StartAnswers) (c : PipeWireCapture) (h : Recyclers)
    (fs : List Frame) (v : Server)
    → Idle c h fs v
    → c.ctx ≡ none
    → c.core ≡ none
    → c.stream ≡ none
    → Starts (start_context new_context a c h) fs v
unfolding start_context objects_of
start_context-Mirrors none a c h fs v i e f g =
    fails (record c { ctx = none }) h fs v
      (changes c (record c { ctx = none }) h fs v v i (i.objects ∙ rw e refl) refl refl refl refl)
start_context-Mirrors (some x) a c h fs v i e f g =
    let v' = record v { objects = Object.context x ∷ v.objects } in
    let c' = record c { ctx = some x } in
    let i' = changes c c' h fs v v' i (rw (i.objects, e, f, g) refl) refl refl refl refl in
    creates (Object.context x) (start_core a.dup_fd a.new_core a c' h) fs v
      (start_core-Mirrors a.dup_fd a.new_core a c' h fs v' i' f g)

start_loop-Mirrors :
    (new_loop : Option ℕ) (a : StartAnswers) (c : PipeWireCapture) (h : Recyclers) (fs : List Frame)
    (v : Server)
    → Idle c h fs v
    → c.loop ≡ none
    → c.ctx ≡ none
    → c.core ≡ none
    → c.stream ≡ none
    → Starts (start_loop new_loop a c h) fs v
unfolding start_loop objects_of
start_loop-Mirrors none a c h fs v i e f g k =
    fails (record c { loop = none }) h fs v
      (changes c (record c { loop = none }) h fs v v i (i.objects ∙ rw e refl) refl refl refl refl)
start_loop-Mirrors (some l) a c h fs v i e f g k =
    let v' = record v { objects = Object.main_loop l ∷ v.objects } in
    let c' = record c { loop = some l } in
    let i' = changes c c' h fs v v' i (rw (i.objects, e, f, g, k) refl) refl refl refl refl in
    creates (Object.main_loop l) (start_context a.new_context a c' h) fs v
      (start_context-Mirrors a.new_context a c' h fs v' i' f g k)

pub start-Mirrors :
    (a : StartAnswers) (s : System) (v : Server)
    → s.stopping ≡ false
    → Idle s.capture s.recyclers s.frames v
    → s.capture.loop ≡ none
    → s.capture.ctx ≡ none
    → s.capture.core ≡ none
    → s.capture.stream ≡ none
    → (w : Server) × (Leads (start a s.capture s.recyclers).3 v w × Mirrors (after_start a s) w)
unfolding start after_start
start-Mirrors a s v going i e f g k =
    let (done, c, h, calls) = start a s.capture s.recyclers in
    let (w, (leads, m)) =
      start_loop-Mirrors a.new_loop a s.capture s.recyclers s.frames v i e f g k in
    (
      w,
      (
        leads,
        subst
            (λ b.
              Mirrors (record { capture = c; recyclers = h; frames = s.frames; stopping = b }) w)
            (sym going) m,
      ),
    )
