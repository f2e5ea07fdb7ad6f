-- ===== src/Capture/PipeWire/Stopped.antt =====
-- What is left behind `Stop`.
use smooth_demon.Prelude.{ℕ, ◌≡◌, refl, true, List, [], ◌∷◌, ◌++◌, Option, none, some}
use smooth_demon.Capture.Frames.{Frame}
use smooth_demon.Capture.PipeWire.{Call, recycle, queue_to, stop_rest}
use smooth_demon.Capture.PipeWire.Server.{Server, no_objects, perform_all, Leads-append}
use smooth_demon.Capture.PipeWire.Steps.{System, new_system, Run}
use smooth_demon.Capture.PipeWire.Mirrors.{objects_of, is_below, true≢false}
use smooth_demon.Capture.PipeWire.Dropping.{drops_below}
use smooth_demon.Capture.PipeWire.Stopping.{stop_rest-Mirrors}
use smooth_demon.Capture.PipeWire.Safe.{Run-Mirrors}

dead_recycler :
    (t : System) (o : Option ℕ) (b : ℕ)
    → ((r : ℕ) → t.recyclers.stream_of r ≡ none)
    → is_below t.recyclers.count o ≡ true
    → recycle t.recyclers o b ≡ []
unfolding recycle queue_to is_below
dead_recycler t none b dead below = true≢false refl below
dead_recycler t (some r) b dead below = rw (recycle, queue_to, dead r) refl

-- In every such run, once `Stop` has invalidated the recycler, its second step is possible and leaves
-- no object; and the end of a frame that outlives it makes no call at all.
pub Run-stop_rest :
    (t : System) (calls : List Call)
    → Run new_system calls t
    → t.stopping ≡ true
    → ((w : Server) × ((perform_all (calls ++ (stop_rest t.capture).1) no_objects ≡ some w)
          × (w.objects ≡ [])))
      × ((before after : List Frame) (f : Frame)
          → t.frames ≡ before ++ f ∷ after
          → recycle t.recyclers f.on_frame_done.recycler f.on_frame_done.buffer ≡ [])
unfolding objects_of stop_rest
Run-stop_rest t calls run stopping =
    let (v, (before_stop, m)) = Run-Mirrors run in
    let (w, (leads, m')) = stop_rest-Mirrors t v m stopping in
    (
      (
        w,
        (Leads-append calls (stop_rest t.capture).1 no_objects v w before_stop leads, m'.objects),
      ),
      λ before after f e.
          dead_recycler t f.on_frame_done.recycler f.on_frame_done.buffer (m.halted stopping)
            (drops_below t.recyclers.count before after f (rw (← e) m.below)).1,
    )
