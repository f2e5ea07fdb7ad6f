-- ===== src/Capture/PipeWire.antt =====
-- `PipeWireCapture` of src/capture/PipeWireCapture.cpp and include/capture/PipeWireCapture.h. What
-- the calls of PipeWire answer is an argument; an object of PipeWire is a number, and a null pointer
-- `none`. The recyclers, which frames share with the capture, are a store.
pub mod Handlers
pub mod Params
pub mod Server
pub mod Steps
pub mod Mirrors
pub mod Idle
pub mod Starting
pub mod Giving
pub mod Using
pub mod Dropping
pub mod Stopping
pub mod Safe
pub mod Stopped
pub mod Descriptors
pub mod Quiet
pub mod Closing
mod Tests
use smooth_demon.Prelude.{
  ℕ, suc, ◌+◌, Bool, true, false, ◌||◌, List, [], ◌∷◌, ◌++◌, Option, none, some, ◌==◌,
  if◌then◌else◌,
}
use smooth_demon.Prelude.Int.{ℤ, pos, negsuc, pos_part, neg_part, sub_ℕ}
use smooth_demon.Capture.Frames.{
  VideoInfo, spa_other, SpaData, SpaDataType, mem_ptr, mem_fd, dma_buf, other_data, PwBuffer,
  FrameDone, FrameBody, dma_body, memory_body, Frame, dma_buf_frame, memory_frame,
}

pub data Object : Type 0 where
  main_loop context core stream : ℕ → Object

-- A call that creates or destroys an object, that takes a buffer from a stream or gives it back, or
-- that goes through a null pointer.
pub data Call : Type 0 where
  create destroy : Object → Call
  -- Another call on an object.
  uses : Object → Call
  dequeue queue : ℕ → ℕ → Call
  null_access : Call
  -- A descriptor is duplicated, given to PipeWire, which takes it or fails, and closed.
  dup close : ℕ → Call
  connect_fd : ℕ → Bool → Call

-- The stream of each recycler, and the number of recyclers.
pub record Recyclers : Type 0 where
  pub stream_of : ℕ → Option ℕ
  pub count : ℕ

-- The fields of `PipeWireCapture` and `Impl`; of a callback, whether it is set, and of the thread,
-- whether it is joinable.
pub record PipeWireCapture : Type 0 where
  pub loop : Option ℕ
  pub ctx : Option ℕ
  pub core : Option ℕ
  pub stream : Option ℕ
  pub joinable : Bool
  pub format : VideoInfo
  pub have_dmabuf : Bool
  pub start_time : ℤ
  pub recycler : Option ℕ
  pub dma_cb : Bool
  pub mem_cb : Bool
  pub state_cb : Bool
  pub streaming : Bool

-- The constructor.
pub pipe_wire_capture : PipeWireCapture
pipe_wire_capture = record {
  loop = none;
  ctx = none;
  core = none;
  stream = none;
  joinable = false;
  format = record { format = spa_other; width = 0; height = 0; modifier = 0 };
  have_dmabuf = false;
  start_time = pos 0;
  recycler = none;
  dma_cb = false;
  mem_cb = false;
  state_cb = false;
  streaming = false;
}

pub set_dma_buf_callback : Bool → PipeWireCapture → PipeWireCapture
set_dma_buf_callback cb c = record c { dma_cb = cb }

pub set_memory_callback : Bool → PipeWireCapture → PipeWireCapture
set_memory_callback cb c = record c { mem_cb = cb }

pub set_state_callback : Bool → PipeWireCapture → PipeWireCapture
set_state_callback cb c = record c { state_cb = cb }

abbrev pub set_at : ℕ → Option ℕ → (ℕ → Option ℕ) → ℕ → Option ℕ
set_at r v f x = if x == r then v else f x

-- `std::make_shared<BufferRecycler>`, with the stream.
pub allocate : ℕ → Recyclers → Recyclers
allocate s h = record { stream_of = set_at h.count (some s) h.stream_of; count = suc h.count }

queue_to : Option ℕ → ℕ → List Call
queue_to none b = []
queue_to (some s) b = queue s b ∷ []

-- `recycle`, through the pointer that `on_frame_done` holds. The destructor of a frame does this.
pub recycle : Recyclers → Option ℕ → ℕ → List Call
unfolding queue_to
recycle h none b = null_access ∷ []
recycle h (some r) b = queue_to (h.stream_of r) b

pub invalidate : Option ℕ → Recyclers → Recyclers
invalidate none h = h
invalidate (some r) h = record h { stream_of = set_at r none h.stream_of }

-- What the calls in `Start` answer.
pub record StartAnswers : Type 0 where
  pub new_loop : Option ℕ
  pub new_context : Option ℕ
  pub dup_fd : Option ℕ
  pub new_core : Option ℕ
  pub new_stream : Option ℕ
  pub connects : Bool

-- The result, and all that `Start` changes.
abbrev pub Started : Type 0
Started = Bool × PipeWireCapture × Recyclers × List Call

abbrev pub after_call : Call → Started → Started
after_call call (done, c, h, calls) = (done, c, h, call ∷ calls)

pub start_stream : Option ℕ → Bool → PipeWireCapture → Recyclers → Started
unfolding allocate
start_stream none connects c h = (false, record c { stream = none }, h, [])
start_stream (some s) false c h =
    (false, record c { stream = some s }, h, create (Object.stream s) ∷ [])
start_stream (some s) true c h = (
  true,
  record c { stream = some s; recycler = some h.count; joinable = true },
  allocate s h,
  create (Object.stream s) ∷ [],
)

pub start_core : Option ℕ → Option ℕ → StartAnswers → PipeWireCapture → Recyclers → Started
unfolding start_stream
start_core none new_core a c h = (false, c, h, [])
start_core (some d) none a c h =
    (false, record c { core = none }, h, dup d ∷ connect_fd d false ∷ close d ∷ [])
start_core (some d) (some k) a c h = after_call (dup d) (
    after_call (connect_fd d true) (
      after_call (create (Object.core k))
        (start_stream a.new_stream a.connects (record c { core = some k }) h)))

pub start_context : Option ℕ → StartAnswers → PipeWireCapture → Recyclers → Started
unfolding start_core
start_context none a c h = (false, record c { ctx = none }, h, [])
start_context (some x) a c h =
    after_call (create (Object.context x))
      (start_core a.dup_fd a.new_core a (record c { ctx = some x }) h)

pub start_loop : Option ℕ → StartAnswers → PipeWireCapture → Recyclers → Started
unfolding start_context
start_loop none a c h = (false, record c { loop = none }, h, [])
start_loop (some l) a c h =
    after_call (create (Object.main_loop l))
      (start_context a.new_context a (record c { loop = some l }) h)

pub start : StartAnswers → PipeWireCapture → Recyclers → Started
unfolding start_loop
start a c h = start_loop a.new_loop a c h

destroy_if : (ℕ → Object) → Option ℕ → List Call
destroy_if kind none = []
destroy_if kind (some o) = destroy (kind o) ∷ []

-- `Stop` first invalidates the recycler.
pub stop_recycler : PipeWireCapture → Recyclers → Recyclers
unfolding invalidate
stop_recycler c h = invalidate c.recycler h

deactivate : Option ℕ → Option ℕ → List Call
deactivate (some l) (some s) = uses (Object.main_loop l) ∷ uses (Object.stream s) ∷ []
deactivate _ _ = []

quit : Option ℕ → List Call
quit none = []
quit (some l) = uses (Object.main_loop l) ∷ []

-- Then it deactivates the stream through the loop, and makes the loop quit.
pub stop_loop : PipeWireCapture → List Call
unfolding deactivate quit
stop_loop c = deactivate c.loop c.stream ++ quit c.loop

-- The rest of `Stop`, behind the end of the loop's thread.
pub stop_rest : PipeWireCapture → PipeWireCapture × List Call
unfolding destroy_if
stop_rest c = (
  record c {
    joinable = false;
    stream = none;
    core = none;
    ctx = none;
    loop = none;
    streaming = false;
  },
  destroy_if Object.stream c.stream
      ++ (destroy_if Object.core c.core
          ++ (destroy_if Object.context c.ctx ++ destroy_if Object.main_loop c.loop)),
)
