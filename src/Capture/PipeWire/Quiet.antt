-- ===== src/Capture/PipeWire/Quiet.antt =====
-- The handlers and the ends of frames concern no descriptor.
use smooth_demon.Prelude.{
  ℕ, refl, Bool, true, false, [], ◌++◌, Option, none, some, if◌then◌else◌, arith,
}
use smooth_demon.Prelude.Int.{ℤ}
use smooth_demon.Capture.Frames.{
  VideoInfo, PwBuffer, SpaDataType, dma_buf, mem_ptr, mem_fd, other_data, FrameBody,
}
use smooth_demon.Capture.PipeWire.{
  PipeWireCapture, Recyclers, recycle, queue_to, deactivate, quit, stop_loop,
}
use smooth_demon.Capture.PipeWire.Handlers.{
  StreamState, is_streaming, pts_of, hand_over, process_data, process_buffer, process_stream,
  param_calls, update_stream,
}
use smooth_demon.Capture.PipeWire.Descriptors.{perform, perform_all, failed_connects, IsQuiet}

queue_to-IsQuiet : (o : Option ℕ) (b : ℕ) → IsQuiet (queue_to o b)
unfolding queue_to perform_all perform failed_connects
queue_to-IsQuiet none b = (λ v. refl, refl)
queue_to-IsQuiet (some s) b = (λ v. refl, refl)

pub recycle-IsQuiet : (h : Recyclers) (o : Option ℕ) (b : ℕ) → IsQuiet (recycle h o b)
unfolding recycle perform_all perform failed_connects
recycle-IsQuiet h none b = (λ v. refl, refl)
recycle-IsQuiet h (some r) b = queue_to-IsQuiet (h.stream_of r) b

hand_over-IsQuiet :
    (cb : Bool) (body : FrameBody) (r : Option ℕ) (s b : ℕ) (h : Recyclers)
    → IsQuiet (hand_over cb body r s b h).1
unfolding hand_over perform_all perform failed_connects
hand_over-IsQuiet true body r s b h = (λ v. refl, refl)
hand_over-IsQuiet false body r s b h =
    let (same, none_failed) = recycle-IsQuiet h r b in (same, omega (arith, none_failed))

process_data-IsQuiet :
    (kind : SpaDataType) (b : PwBuffer) (pts : ℤ) (s : ℕ) (c : PipeWireCapture) (h : Recyclers)
    → IsQuiet (process_data kind b pts s c h).1
unfolding process_data perform_all perform failed_connects
process_data-IsQuiet dma_buf b pts s c h = hand_over-IsQuiet c.dma_cb _ c.recycler s b.address h
process_data-IsQuiet mem_ptr b pts s c h = hand_over-IsQuiet c.mem_cb _ c.recycler s b.address h
process_data-IsQuiet mem_fd b pts s c h = hand_over-IsQuiet c.mem_cb _ c.recycler s b.address h
process_data-IsQuiet other_data b pts s c h = (λ v. refl, refl)

process_buffer-IsQuiet :
    (dequeued : Option PwBuffer) (now : ℤ) (s : ℕ) (c : PipeWireCapture) (h : Recyclers)
    → IsQuiet (process_buffer dequeued now s c h).1
unfolding process_buffer perform_all perform failed_connects
process_buffer-IsQuiet none now s c h = (λ v. refl, refl)
process_buffer-IsQuiet (some b) now s c h =
    let pts = pts_of b.header_pts now c.start_time in
    let (same, none_failed) = process_data-IsQuiet b.first_data.type b pts s c h in
    (same, omega (arith, none_failed))

pub process_stream-IsQuiet :
    (stream : Option ℕ) (state : StreamState) (dequeued : Option PwBuffer) (now : ℤ)
    (c : PipeWireCapture) (h : Recyclers)
    → IsQuiet (process_stream stream state dequeued now c h).1
unfolding process_stream perform_all perform failed_connects
process_stream-IsQuiet none state dequeued now c h = (λ v. refl, refl)
process_stream-IsQuiet (some s) state dequeued now c h = by_state (is_streaming state)
  where
    by_state : (on : Bool) → IsQuiet (if on then process_buffer dequeued now s c h else ([], [])).1
    by_state true = process_buffer-IsQuiet dequeued now s c h
    by_state false = (λ v. refl, refl)

pub param_calls-IsQuiet :
    (param : Option (VideoInfo × Bool)) (c : PipeWireCapture) → IsQuiet (param_calls param c)
unfolding param_calls update_stream perform_all perform failed_connects
param_calls-IsQuiet none c = (λ v. refl, refl)
param_calls-IsQuiet (some format) c = by_stream c.stream
  where
    by_stream : (o : Option ℕ) → IsQuiet (update_stream o)
    by_stream none = (λ v. refl, refl)
    by_stream (some s) = (λ v. refl, refl)

loop-IsQuiet : (l s : Option ℕ) → IsQuiet (deactivate l s ++ quit l)
unfolding deactivate quit perform_all perform failed_connects
loop-IsQuiet none s = (λ v. refl, refl)
loop-IsQuiet (some l) none = (λ v. refl, refl)
loop-IsQuiet (some l) (some s) = (λ v. refl, refl)

pub stop_loop-IsQuiet : (c : PipeWireCapture) → IsQuiet (stop_loop c)
unfolding stop_loop
stop_loop-IsQuiet c = loop-IsQuiet c.loop c.stream
