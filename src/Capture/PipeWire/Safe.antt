-- ===== src/Capture/PipeWire/Safe.antt =====
-- Every sequence of steps of a capture is safe.
use smooth_demon.Prelude.{
  ℕ, ◌≡◌, refl, Bool, true, false, ◌||◌, List, Option, none, some, if◌then◌else◌, Option-cases, inl,
  inr,
}
use smooth_demon.Prelude.Int.{ℤ}
use smooth_demon.Capture.Frames.{VideoInfo}
use smooth_demon.Capture.PipeWire.{
  Call, set_dma_buf_callback, set_memory_callback, pipe_wire_capture,
}
use smooth_demon.Capture.PipeWire.Handlers.{
  StreamState, is_streaming, is_error, on_state_changed, on_param_changed,
}
use smooth_demon.Capture.PipeWire.Server.{Server, no_objects, perform_all, Leads, Leads-append}
use smooth_demon.Capture.PipeWire.Steps.{
  System, new_system, Step, starts, processes, changes_state, changes_param, drops, stops,
  tears_down, Run, stays, then_step,
}
use smooth_demon.Capture.PipeWire.Mirrors.{
  objects_of, held, all_below, Mirrors, true≢false, none≢some,
}
use smooth_demon.Capture.PipeWire.Idle.{Idle}
use smooth_demon.Capture.PipeWire.Starting.{start-Mirrors}
use smooth_demon.Capture.PipeWire.Using.{param_calls-Leads, stop_loop-Leads}
use smooth_demon.Capture.PipeWire.Giving.{handle_process-Mirrors}
use smooth_demon.Capture.PipeWire.Dropping.{drop-Mirrors}
use smooth_demon.Capture.PipeWire.Stopping.{stop_recycler-Mirrors, stop_rest-Mirrors}

Mirrors→Idle :
    (s : System) (v : Server)
    → Mirrors s v
    → s.capture.joinable ≡ false
    → s.capture.stream ≡ none
    → Idle s.capture s.recyclers s.frames v
Mirrors→Idle s v m off without = record {
  objects = m.objects;
  has_dma_cb = m.has_dma_cb;
  has_mem_cb = m.has_mem_cb;
  not_joinable = off;
  dead = λ r. elim (Option-cases (s.recyclers.stream_of r)) [
    | inl dead ↦ dead
    | inr (x, live) ↦ none≢some without (m.current r x live).1
  ];
  unused = m.unused without;
  below = m.below;
}

-- The fields that the two other handlers change do not matter.
other_fields-Mirrors :
    (format : VideoInfo) (has_modifier : Bool) (now : ℤ) (on : Bool) (s : System) (v : Server)
    → Mirrors s v
    → Mirrors
        (record s {
          capture = record s.capture {
            format = format;
            have_dmabuf = has_modifier;
            start_time = now;
            streaming = on;
          };
        })
        v
unfolding objects_of
other_fields-Mirrors format has_modifier now on s v m = record {
  objects = m.objects;
  has_dma_cb = m.has_dma_cb;
  has_mem_cb = m.has_mem_cb;
  running = λ runs.
      let r = m.running runs in
      record {
        index = r.index;
        stream = r.stream;
        has_recycler = r.has_recycler;
        has_stream = r.has_stream;
        made = r.made;
        live = r.live;
      };
  current = m.current;
  halted = m.halted;
  unused = m.unused;
  returned = m.returned;
  below = m.below;
}

on_state_changed-Mirrors :
    (old_s new_s : StreamState) (s : System) (v : Server)
    → Mirrors s v
    → Mirrors (record s { capture = on_state_changed old_s new_s s.capture }) v
unfolding on_state_changed
on_state_changed-Mirrors old_s new_s s v m =
    by_state (is_streaming new_s) (is_streaming old_s || is_error new_s)
  where
    with_streaming :
        (on : Bool) → Mirrors (record s { capture = record s.capture { streaming = on } }) v
    with_streaming on =
        other_fields-Mirrors s.capture.format s.capture.have_dmabuf s.capture.start_time on s v m

    by_state :
        (starts ends : Bool)
        → let c =
            if starts
            then record s.capture { streaming = true }
            else if ends
            then record s.capture { streaming = false }
            else s.capture in
          Mirrors (record s { capture = c }) v
    by_state true ends = with_streaming true
    by_state false true = with_streaming false
    by_state false false = m

on_param_changed-Mirrors :
    (param : Option (VideoInfo × Bool)) (now : ℤ) (s : System) (v : Server)
    → Mirrors s v
    → Mirrors (record s { capture = on_param_changed param now s.capture }) v
unfolding on_param_changed
on_param_changed-Mirrors none now s v m = m
on_param_changed-Mirrors (some (format, has_modifier)) now s v m =
    other_fields-Mirrors format has_modifier now s.capture.streaming s v m

Step-Mirrors :
    {s t : System} {calls : List Call} (v : Server)
    → Mirrors s v
    → Step s calls t
    → (w : Server) × (Leads calls v w × Mirrors t w)
unfolding perform_all
Step-Mirrors {s} v m (starts a going off l x k e) =
    start-Mirrors a s v going (Mirrors→Idle s v m off e) l x k e
Step-Mirrors {s} v m (processes state dequeued now on) =
    handle_process-Mirrors state dequeued now s v m on
Step-Mirrors {s} v m (changes_state old_s new_s) =
    (v, (refl, on_state_changed-Mirrors old_s new_s s v m))
Step-Mirrors {s} v m (changes_param param now on) =
    (v, (param_calls-Leads param s v m on, on_param_changed-Mirrors param now s v m))
Step-Mirrors {s} v m (drops before after f e) = drop-Mirrors s v before after f m e
Step-Mirrors {s} v m (stops going) = (v, (stop_loop-Leads s v m, stop_recycler-Mirrors s v m going))
Step-Mirrors {s} v m (tears_down stopping) = stop_rest-Mirrors s v m stopping

new_system-Mirrors : Mirrors new_system no_objects
unfolding new_system set_dma_buf_callback set_memory_callback pipe_wire_capture objects_of held
    all_below
new_system-Mirrors = record {
  objects = refl;
  has_dma_cb = refl;
  has_mem_cb = refl;
  running = λ on. true≢false refl on;
  current = λ r x live. none≢some refl live;
  halted = λ on. true≢false refl on;
  unused = λ without b. refl;
  returned = λ going b. refl;
  below = refl;
}

pub Run-Mirrors :
    {t : System} {calls : List Call}
    → Run new_system calls t
    → (w : Server) × (Leads calls no_objects w × Mirrors t w)
unfolding perform_all
Run-Mirrors stays = (no_objects, (refl, new_system-Mirrors))
Run-Mirrors (then_step {calls} {more} run step) =
    let (v, (before, m)) = Run-Mirrors run in
    let (w, (after, m')) = Step-Mirrors v m step in
    (w, (Leads-append calls more no_objects v w before after, m'))

-- In every run of a capture with the two frame callbacks, in which `Start` is called only where there
-- are no objects, each call is possible: no buffer is given back twice, or to a stream that is
-- destroyed, no other call is on an object that is not alive, nothing goes through a null pointer,
-- and objects are destroyed in the reverse order of their creation. The objects that are alive are those of the fields; and outside of `Stop`, the
-- buffers that are taken from the stream are those that the live frames would give back.
pub Run-safe :
    (t : System) (calls : List Call)
    → Run new_system calls t
    → (w : Server) × ((perform_all calls no_objects ≡ some w)
        × (w.objects ≡ objects_of t.capture)
        × (t.stopping ≡ false → (b : ℕ) → w.taken b ≡ held t.recyclers t.frames b))
Run-safe t calls run = let (w, (leads, m)) = Run-Mirrors run in (w, (leads, m.objects, m.returned))
