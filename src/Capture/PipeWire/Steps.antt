-- ===== src/Capture/PipeWire/Steps.antt =====
-- The threads of a capture: the client's, which starts and stops it and lets frames die, and the
-- loop's, which calls the three handlers while it runs. `Stop` has two steps, since the loop's
-- thread runs on while the recycler is invalidated.
use smooth_demon.Prelude.{◌≡◌, Bool, true, false, List, [], ◌∷◌, ◌++◌, Option, none}
use smooth_demon.Prelude.Int.{ℤ}
use smooth_demon.Capture.Frames.{VideoInfo, PwBuffer, Frame}
use smooth_demon.Capture.PipeWire.{
  PipeWireCapture, Recyclers, Call, StartAnswers, pipe_wire_capture, set_dma_buf_callback,
  set_memory_callback, start, stop_recycler, stop_loop, stop_rest, recycle,
}
use smooth_demon.Capture.PipeWire.Handlers.{
  StreamState, on_state_changed, on_param_changed, param_calls, handle_process,
}

-- `stopping` while `Stop` runs behind its first step.
pub record System : Type 0 where
  pub capture : PipeWireCapture
  pub recyclers : Recyclers
  pub frames : List Frame
  pub stopping : Bool

-- A new capture, with the two frame callbacks set.
unfoldable pub new_system : System
unfolding pipe_wire_capture set_dma_buf_callback set_memory_callback
new_system = record {
  capture = set_memory_callback true (set_dma_buf_callback true pipe_wire_capture);
  recyclers = record { stream_of = λ r. none; count = 0 };
  frames = [];
  stopping = false;
}

unfoldable pub after_start : StartAnswers → System → System
unfolding start
after_start a s =
    let (done, c, h, calls) = start a s.capture s.recyclers in
    record s { capture = c; recyclers = h }

unfoldable pub after_process : StreamState → Option PwBuffer → ℤ → System → System
unfolding handle_process
after_process state dequeued now s = record s {
  frames = (handle_process state dequeued now s.capture s.recyclers).0 ++ s.frames;
}

-- What has no objects can be started.
pub data Step (s : System) : List Call → System → Type 0 where
  starts :
      (a : StartAnswers)
      → s.stopping ≡ false
      → s.capture.joinable ≡ false
      → s.capture.loop ≡ none
      → s.capture.ctx ≡ none
      → s.capture.core ≡ none
      → s.capture.stream ≡ none
      → Step s (start a s.capture s.recyclers).3 (after_start a s)
  processes :
      (state : StreamState) (dequeued : Option PwBuffer) (now : ℤ)
      → s.capture.joinable ≡ true
      → Step s
          (handle_process state dequeued now s.capture s.recyclers).1
          (after_process state dequeued now s)
  changes_state :
      (old_s new_s : StreamState)
      → Step s [] (record s { capture = on_state_changed old_s new_s s.capture })
  changes_param :
      (param : Option (VideoInfo × Bool)) (now : ℤ)
      → s.capture.joinable ≡ true
      → Step s
          (param_calls param s.capture)
          (record s { capture = on_param_changed param now s.capture })
  drops :
      (before after : List Frame) (f : Frame)
      → s.frames ≡ before ++ f ∷ after
      → Step s
          (recycle s.recyclers f.on_frame_done.recycler f.on_frame_done.buffer)
          (record s { frames = before ++ after })
  stops :
      s.stopping ≡ false
      → Step s
          (stop_loop s.capture)
          (record s { recyclers = stop_recycler s.capture s.recyclers; stopping = true })
  tears_down :
      s.stopping ≡ true
      → Step s
          (stop_rest s.capture).1
          (record s { capture = (stop_rest s.capture).0; stopping = false })

-- Any number of steps.
pub data Run (s : System) : List Call → System → Type 0 where
  stays : Run s [] s
  then_step :
      {calls more : List Call} {t u : System}
      → Run s calls t
      → Step t more u
      → Run s (calls ++ more) u
