-- ===== src/Capture/PipeWire/Using.antt =====
-- Calls on the loop and the stream, by the handlers and by the first step of `Stop`.
use smooth_demon.Prelude.{
  ℕ, ◌≡◌, refl, Bool, true, [], ◌∷◌, Option, none, some, arith, Option-cases, inl, inr,
}
use smooth_demon.Capture.Frames.{VideoInfo}
use smooth_demon.Capture.PipeWire.{Object, uses, deactivate, quit, stop_loop}
use smooth_demon.Capture.PipeWire.Handlers.{param_calls, update_stream}
use smooth_demon.Capture.PipeWire.Server.{Server, has_object, perform, perform_all, Leads}
use smooth_demon.Capture.PipeWire.Steps.{System}
use smooth_demon.Capture.PipeWire.Mirrors.{object_if, objects_of, Mirrors}
use smooth_demon.Capture.PipeWire.Giving.{stream_is_there}

uses-Leads : (o : Object) (v : Server) → has_object o v.objects ≡ true → perform (uses o) v ≡ some v
unfolding perform
uses-Leads o v there = rw there refl

-- The loop is the oldest object.
loop_below :
    (l : ℕ) (s k x : Option ℕ)
    → has_object (Object.main_loop l) (
        object_if Object.stream s
          (object_if Object.core k (object_if Object.context x (Object.main_loop l ∷ []))))
      ≡ true
unfolding has_object
loop_below l none none none = ground arith
loop_below l none none (some x) = ground arith
loop_below l none (some k) none = ground arith
loop_below l none (some k) (some x) = ground arith
loop_below l (some s) none none = ground arith
loop_below l (some s) none (some x) = ground arith
loop_below l (some s) (some k) none = ground arith
loop_below l (some s) (some k) (some x) = ground arith

loop_is_there :
    (s : System) (v : Server) (l : ℕ)
    → Mirrors s v
    → s.capture.loop ≡ some l
    → has_object (Object.main_loop l) v.objects ≡ true
unfolding objects_of
loop_is_there s v l m e =
    rw (m.objects, e) (loop_below l s.capture.stream s.capture.core s.capture.ctx)

pub param_calls-Leads :
    (param : Option (VideoInfo × Bool)) (s : System) (v : Server)
    → Mirrors s v
    → s.capture.joinable ≡ true
    → Leads (param_calls param s.capture) v v
unfolding param_calls update_stream perform_all
param_calls-Leads none s v m on = refl
param_calls-Leads (some format) s v m on =
    let r = m.running on in
    let there = stream_is_there s v r.stream m r.has_stream in
    simp (r.has_stream, uses-Leads (Object.stream r.stream) v there)

pub stop_loop-Leads : (s : System) (v : Server) → Mirrors s v → Leads (stop_loop s.capture) v v
unfolding stop_loop deactivate quit perform_all
stop_loop-Leads s v m = elim (Option-cases s.capture.loop) [
  | inl without ↦ simp (without)
  | inr (l, e) ↦
      let loop = uses-Leads (Object.main_loop l) v (loop_is_there s v l m e) in
      elim (Option-cases s.capture.stream) [
        | inl without ↦ simp (e, without, loop)
        | inr (x, f) ↦
            let stream = uses-Leads (Object.stream x) v (stream_is_there s v x m f) in
            simp (e, f, loop, stream)
      ]
]
