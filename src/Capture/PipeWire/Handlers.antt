-- ===== src/Capture/PipeWire/Handlers.antt =====
-- The handlers of the stream's events, which run in the loop's thread, and `HandleProcess`.
use smooth_demon.Prelude.{
  ℕ, ◌+◌, Bool, true, false, ◌||◌, List, [], ◌∷◌, Option, none, some, if◌then◌else◌,
}
use smooth_demon.Prelude.Int.{ℤ, pos_part, neg_part, sub_ℕ}
use smooth_demon.Capture.Frames.{
  VideoInfo, SpaDataType, mem_ptr, mem_fd, dma_buf, other_data, PwBuffer, FrameBody, dma_body,
  memory_body, Frame, dma_buf_frame, memory_frame,
}
use smooth_demon.Capture.PipeWire.{
  Object, Call, uses, dequeue, queue, null_access, PipeWireCapture, Recyclers, recycle,
}

-- `pw_stream_state`
pub data StreamState : Type 0 where
  stream_error unconnected connecting paused streaming_state : StreamState

abbrev pub is_streaming : StreamState → Bool
is_streaming streaming_state = true
is_streaming _ = false

abbrev pub is_error : StreamState → Bool
is_error stream_error = true
is_error _ = false

unfoldable pub on_state_changed : StreamState → StreamState → PipeWireCapture → PipeWireCapture
on_state_changed old_s new_s c =
    if is_streaming new_s
    then record c { streaming = true }
    else if is_streaming old_s || is_error new_s
    then record c { streaming = false }
    else c

-- The parameter of `OnParamChanged`, where it is a format that can be parsed: the format, and whether
-- it has a modifier.
unfoldable pub on_param_changed : Option (VideoInfo × Bool) → ℤ → PipeWireCapture → PipeWireCapture
on_param_changed none now c = c
on_param_changed (some (format, has_modifier)) now c = record c {
  format = format;
  have_dmabuf = has_modifier;
  start_time = now;
}

-- What the client's state callback is called with.
unfoldable pub state_callback : Option (VideoInfo × Bool) → PipeWireCapture → Option (Bool × ℕ × ℕ)
state_callback none c = none
state_callback (some (format, has_modifier)) c =
    if c.state_cb then some (true, format.width, format.height) else none

-- The kinds of memory that the buffers are declared with.
unfoldable pub buffer_types : Bool → List SpaDataType
buffer_types have_dmabuf = mem_ptr ∷ mem_fd ∷ (if have_dmabuf then dma_buf ∷ [] else [])

-- What the buffers of the stream are declared with: the metadata of the header, their number, and
-- the kinds of memory.
pub record BufferParams : Type 0 where
  pub has_header : Bool
  pub buffers : ℕ
  pub data_types : List SpaDataType

unfoldable pub updated_params : Bool → BufferParams
unfolding buffer_types
updated_params have_dmabuf = record {
  has_header = true;
  buffers = 4;
  data_types = buffer_types have_dmabuf;
}

unfoldable pub update_stream : Option ℕ → List Call
update_stream none = null_access ∷ []
update_stream (some s) = uses (Object.stream s) ∷ []

-- The call that declares them.
unfoldable pub param_calls : Option (VideoInfo × Bool) → PipeWireCapture → List Call
unfolding update_stream
param_calls none c = []
param_calls (some format) c = update_stream c.stream

-- `a - b`
unfoldable pub minus : ℤ → ℤ → ℤ
minus a b = sub_ℕ (pos_part a + neg_part b) (neg_part a + pos_part b)

unfoldable pub pts_of : Option ℤ → ℤ → ℤ → ℤ
unfolding minus
pts_of (some pts) now start_time = pts
pts_of none now start_time = minus now start_time

-- To the callback, if it is set; if not, the buffer is queued, and the frame dies.
unfoldable pub hand_over : Bool → FrameBody → Option ℕ → ℕ → ℕ → Recyclers → List Frame × List Call
unfolding recycle
hand_over true body r s b h =
    (record { body = body; on_frame_done = record { recycler = r; buffer = b } } ∷ [], [])
hand_over false body r s b h = ([], queue s b ∷ recycle h r b)

-- With a buffer, by the kind of its first data.
unfoldable pub process_data :
    SpaDataType → PwBuffer → ℤ → ℕ → PipeWireCapture → Recyclers → List Frame × List Call
unfolding hand_over
process_data dma_buf b pts s c h =
    hand_over c.dma_cb (dma_body (dma_buf_frame c.format pts b)) c.recycler s b.address h
process_data mem_ptr b pts s c h =
    hand_over c.mem_cb (memory_body (memory_frame c.format pts b)) c.recycler s b.address h
process_data mem_fd b pts s c h =
    hand_over c.mem_cb (memory_body (memory_frame c.format pts b)) c.recycler s b.address h
process_data other_data b pts s c h = ([], queue s b.address ∷ [])

unfoldable pub process_buffer :
    Option PwBuffer → ℤ → ℕ → PipeWireCapture → Recyclers → List Frame × List Call
unfolding process_data pts_of
process_buffer none now s c h = ([], [])
process_buffer (some b) now s c h =
    let pts = pts_of b.header_pts now c.start_time in
    let (frames, calls) = process_data b.first_data.type b pts s c h in
    (frames, dequeue s b.address ∷ calls)

unfoldable pub process_stream :
    Option ℕ
    → StreamState
    → Option PwBuffer
    → ℤ
    → PipeWireCapture
    → Recyclers
    → List Frame × List Call
unfolding process_buffer
process_stream none state dequeued now c h = ([], null_access ∷ [])
process_stream (some s) state dequeued now c h =
    if is_streaming state then process_buffer dequeued now s c h else ([], [])

-- `HandleProcess`: the frames that are handed to the client, and the calls.
unfoldable pub handle_process :
    StreamState → Option PwBuffer → ℤ → PipeWireCapture → Recyclers → List Frame × List Call
unfolding process_stream
handle_process state dequeued now c h = process_stream c.stream state dequeued now c h
