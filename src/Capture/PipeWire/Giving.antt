-- ===== src/Capture/PipeWire/Giving.antt =====
-- Buffers that are taken from the stream, handed over as frames, and given back.
use mathlib.Core.Path.{subst}
use smooth_demon.Prelude.{
  ℕ, ◌+◌, ◌-◌, ◌≡◌, refl, sym, Bool, true, false, List, [], ◌∷◌, ◌++◌, Option, none, some, lt→ltb,
  ◌==◌, if◌then◌else◌, arith,
}
use smooth_demon.Prelude.Int.{ℤ}
use smooth_demon.Capture.Frames.{
  PwBuffer, SpaDataType, dma_buf, mem_ptr, mem_fd, other_data, FrameBody, Frame,
}
use smooth_demon.Capture.PipeWire.{Object, Call, dequeue, queue}
use smooth_demon.Capture.PipeWire.Handlers.{
  StreamState, pts_of, is_streaming, hand_over, process_data, process_buffer, process_stream,
  handle_process,
}
use smooth_demon.Capture.PipeWire.Server.{
  Server, one_if, has_object, perform, perform_all, Leads, Leads-cons,
}
use smooth_demon.Capture.PipeWire.Steps.{System, after_process}
use smooth_demon.Capture.PipeWire.Mirrors.{
  objects_of, held, is_live, is_below, all_below, Mirrors, Running, none≢some,
}

pub stream_is_there :
    (s : System) (v : Server) (x : ℕ)
    → Mirrors s v
    → s.capture.stream ≡ some x
    → has_object (Object.stream x) v.objects ≡ true
unfolding has_object objects_of
stream_is_there s v x m e = rw (m.objects, e) (ground arith)

-- The server behind a `dequeue`.
abbrev take_one : ℕ → Server → Server
take_one b v = record v { taken = λ x. v.taken x + one_if (x == b) }

-- Mirrors, for a system with other frames and a server with other buffers taken.
pub changes_taken :
    (s : System) (v : Server) (frames : List Frame) (taken : ℕ → ℕ)
    → Mirrors s v
    → (s.capture.stream ≡ none → (b : ℕ) → taken b ≡ 0)
    → (s.stopping ≡ false → (b : ℕ) → taken b ≡ held s.recyclers frames b)
    → all_below s.recyclers.count frames ≡ true
    → Mirrors (record s { frames = frames }) (record v { taken = taken })
changes_taken s v frames taken m unused returned below = record {
  objects = m.objects;
  has_dma_cb = m.has_dma_cb;
  has_mem_cb = m.has_mem_cb;
  running = λ on.
      let r = m.running on in
      record {
        index = r.index;
        stream = r.stream;
        has_recycler = r.has_recycler;
        has_stream = r.has_stream;
        made = r.made;
        live = r.live;
      };
  current = m.current;
  halted = m.halted;
  unused = unused;
  returned = returned;
  below = below;
}

-- What the handler gives mirrors the server behind its calls.
abbrev Gives : List Frame × List Call → System → Server → Type 0
Gives (frames, calls) s v =
    (w : Server) × (Leads calls v w × Mirrors (record s { frames = frames ++ s.frames }) w)

-- A frame with the recycler that the capture has now.
abbrev new_frame : FrameBody → ℕ → System → Frame
new_frame body b s = record {
  body = body;
  on_frame_done = record { recycler = s.capture.recycler; buffer = b };
}

given :
    (body : FrameBody) (b : ℕ) (s : System) (v : Server)
    → Mirrors s v
    → Running s
    → Mirrors (record s { frames = new_frame body b s ∷ s.frames }) (take_one b v)
unfolding held is_live all_below is_below
given body b s v m r =
    changes_taken s v (new_frame body b s ∷ s.frames) (take_one b v).taken m
      (λ without. none≢some without r.has_stream)
      (λ going x. rw (r.has_recycler, r.live going) (omega (arith, m.returned going x)))
      (rw (r.has_recycler, lt→ltb r.index s.recyclers.count r.made) m.below)

-- A buffer of another kind is given back at once.
given_back :
    (b : ℕ) (s : System) (v : Server)
    → Mirrors s v
    → (r : Running s) → Gives ([], queue r.stream b ∷ []) s (take_one b v)
unfolding perform perform_all
given_back b s v m r =
    let w = record v { taken = λ x. v.taken x + one_if (x == b) - one_if (x == b) } in
    (
      w,
      (
        Leads-cons (queue r.stream b) [] (take_one b v) w w
            (rw (stream_is_there s v r.stream m r.has_stream) (ground arith)) refl,
        changes_taken s v s.frames w.taken m (λ without. none≢some without r.has_stream)
            (λ going x. omega (arith, m.returned going x)) m.below,
      ),
    )

-- With a callback, which is set.
hand_over-Mirrors :
    (cb : Bool) (body : FrameBody) (b : ℕ) (s : System) (v : Server)
    → Mirrors s v
    → (r : Running s) → cb ≡ true
    → Gives (hand_over cb body s.capture.recycler r.stream b s.recyclers) s (take_one b v)
unfolding hand_over perform_all
hand_over-Mirrors true body b s v m r on = (take_one b v, (refl, given body b s v m r))
hand_over-Mirrors false body b s v m r on = cc

process_data-Mirrors :
    (kind : SpaDataType) (b : PwBuffer) (pts : ℤ) (s : System) (v : Server)
    → Mirrors s v
    → (r : Running s)
    → Gives (process_data kind b pts r.stream s.capture s.recyclers) s (take_one b.address v)
unfolding process_data
process_data-Mirrors dma_buf b pts s v m r =
    hand_over-Mirrors s.capture.dma_cb _ b.address s v m r m.has_dma_cb
process_data-Mirrors mem_ptr b pts s v m r =
    hand_over-Mirrors s.capture.mem_cb _ b.address s v m r m.has_mem_cb
process_data-Mirrors mem_fd b pts s v m r =
    hand_over-Mirrors s.capture.mem_cb _ b.address s v m r m.has_mem_cb
process_data-Mirrors other_data b pts s v m r = given_back b.address s v m r

stays : (s : System) (v : Server) → Mirrors s v → Gives ([], []) s v
unfolding perform_all
stays s v m = (v, (refl, m))

process_buffer-Mirrors :
    (dequeued : Option PwBuffer) (now : ℤ) (s : System) (v : Server)
    → Mirrors s v
    → (r : Running s) → Gives (process_buffer dequeued now r.stream s.capture s.recyclers) s v
unfolding process_buffer perform
process_buffer-Mirrors none now s v m r = stays s v m
process_buffer-Mirrors (some b) now s v m r =
    let pts = pts_of b.header_pts now s.capture.start_time in
    let (frames, calls) = process_data b.first_data.type b pts r.stream s.capture s.recyclers in
    let (w, (leads, m')) = process_data-Mirrors b.first_data.type b pts s v m r in
    (
      w,
      (
        Leads-cons (dequeue r.stream b.address) calls v (take_one b.address v) w
            (rw (stream_is_there s v r.stream m r.has_stream, perform) refl) leads,
        m',
      ),
    )

process_stream-Mirrors :
    (state : StreamState) (dequeued : Option PwBuffer) (now : ℤ) (s : System) (v : Server)
    → Mirrors s v
    → (r : Running s)
    → Gives (process_stream (some r.stream) state dequeued now s.capture s.recyclers) s v
unfolding process_stream
process_stream-Mirrors state dequeued now s v m r = by_state (is_streaming state)
  where
    by_state :
        (on : Bool)
        → Gives
            (if on then process_buffer dequeued now r.stream s.capture s.recyclers else ([], []))
            s
            v
    by_state true = process_buffer-Mirrors dequeued now s v m r
    by_state false = stays s v m

-- `HandleProcess`, in the loop's thread.
pub handle_process-Mirrors :
    (state : StreamState) (dequeued : Option PwBuffer) (now : ℤ) (s : System) (v : Server)
    → Mirrors s v
    → s.capture.joinable ≡ true
    → (w : Server) × (Leads (handle_process state dequeued now s.capture s.recyclers).1 v w
        × Mirrors (after_process state dequeued now s) w)
unfolding handle_process after_process
handle_process-Mirrors state dequeued now s v m on =
    let r = m.running on in
    subst (λ o. Gives (process_stream o state dequeued now s.capture s.recyclers) s v)
      (sym r.has_stream) (process_stream-Mirrors state dequeued now s v m r)
