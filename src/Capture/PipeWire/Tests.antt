-- ===== src/Capture/PipeWire/Tests.antt =====
-- A capture that is started, gives two frames and is stopped.
use smooth_demon.Prelude.{length, ◌++◌, map, ℕ, ◌≡◌, refl, true, false, List, [], ◌∷◌, none, some}
use smooth_demon.Prelude.Int.{pos}
use smooth_demon.Capture.Frames.{
  VideoInfo, spa_bgrx, SpaDataType, mem_ptr, mem_fd, dma_buf, PwBuffer, Frame, memory_body,
  memory_frame, spa_to_pixel_format, bgrx, bgra, rgbx, rgba, unknown, planes_of,
}
use smooth_demon.Capture.PipeWire.{
  dup, connect_fd, Object, Call, create, destroy, dequeue, queue, StartAnswers, pipe_wire_capture,
  start, stop_rest, stop_recycler, stop_loop, recycle, uses,
}
use smooth_demon.Capture.PipeWire.Handlers.{
  on_param_changed, param_calls, updated_params, streaming_state, handle_process,
}
use smooth_demon.Capture.PipeWire.Server.{Server, no_objects, perform_all}
use smooth_demon.Capture.PipeWire.Steps.{
  System, new_system, starts, changes_param, processes, drops, stops, tears_down, after_start,
  after_process, Run, stays, then_step,
}
use smooth_demon.Capture.PipeWire.Mirrors.{objects_of, held}
use smooth_demon.Capture.PipeWire.Safe.{Run-safe}
use smooth_demon.Capture.PipeWire.Stopped.{Run-stop_rest}
use smooth_demon.Capture.PipeWire.Descriptors.{no_descriptors, failed_connects, size_of, perform}
use smooth_demon.Capture.PipeWire.Descriptors as Descriptors
use smooth_demon.Capture.PipeWire.Closing.{Run-descriptors}
use smooth_demon.Capture.PipeWire.Params.{build_stream_params}

abbrev answers : StartAnswers
answers = record {
  new_loop = some 1;
  new_context = some 2;
  dup_fd = some 8;
  new_core = some 3;
  new_stream = some 4;
  connects = true;
}

abbrev buffer : SpaDataType → ℕ → PwBuffer
buffer kind address = record {
  address = address;
  header_pts = some (pos 1_000);
  first_data = record {
    type = kind;
    fd = pos 9;
    maxsize = 8_294_400;
    data_pointer = 0;
    offset = 0;
    size = 8_294_400;
    stride = pos 7_680;
  };
  other_datas = [];
}

fails_late :
    (start
      (record answers { connects = false })
      pipe_wire_capture
      (record { stream_of = λ r. none; count = 0 })).3
    ≡ create (Object.main_loop 1)
      ∷ create (Object.context 2)
      ∷ dup 8
      ∷ connect_fd 8 true
      ∷ create (Object.core 3)
      ∷ create (Object.stream 4)
      ∷ []
unfolding start pipe_wire_capture
fails_late = refl

pads_planes :
    (planes_of 2 ((buffer dma_buf 50).first_data ∷ []))
    ≡ record { offset = 0; pitch = 7_680 } ∷ record { offset = 0; pitch = 0 } ∷ []
unfolding planes_of
pads_planes = refl

abbrev started : System
started = after_start answers new_system

abbrev wide : VideoInfo
wide = record { format = spa_bgrx; width = 1920; height = 1080; modifier = 0 }

abbrev negotiated : System
negotiated = record started {
  capture = on_param_changed (some (wide, true)) (pos 500) started.capture;
}

abbrev with_dma : System
with_dma = after_process streaming_state (some (buffer dma_buf 50)) (pos 0) negotiated

abbrev with_both : System
with_both = after_process streaming_state (some (buffer mem_ptr 51)) (pos 0) with_dma

abbrev second_frame : Frame
second_frame = record {
  body = memory_body (memory_frame with_dma.capture.format (pos 1_000) (buffer mem_ptr 51));
  on_frame_done = record { recycler = some 0; buffer = 51 };
}

abbrev dropped : System
dropped = record with_both { frames = with_dma.frames }

abbrev stopping : System
stopping = record dropped {
  recyclers = stop_recycler dropped.capture dropped.recyclers;
  stopping = true;
}

abbrev stopped : System
stopped = record stopping { capture = (stop_rest stopping.capture).0; stopping = false }

-- The second frame is dropped, and the first outlives the capture.
abbrev calls_before : List Call
calls_before =
    create (Object.main_loop 1)
    ∷ create (Object.context 2)
    ∷ dup 8
    ∷ connect_fd 8 true
    ∷ create (Object.core 3)
    ∷ create (Object.stream 4)
    ∷ uses (Object.stream 4)
    ∷ dequeue 4 50
    ∷ dequeue 4 51
    ∷ queue 4 51
    ∷ uses (Object.main_loop 1)
    ∷ uses (Object.stream 4)
    ∷ uses (Object.main_loop 1)
    ∷ []

is_stopping : Run new_system calls_before stopping
unfolding start after_start handle_process after_process stop_recycler stop_loop new_system recycle
    on_param_changed param_calls
is_stopping =
    then_step
      (then_step
        (then_step
          (then_step
            (then_step (then_step stays (starts answers refl refl refl refl refl refl))
              (changes_param (some (wide, true)) (pos 500) refl))
            (processes streaming_state (some (buffer dma_buf 50)) (pos 0) refl))
          (processes streaming_state (some (buffer mem_ptr 51)) (pos 0) refl))
        (drops [] with_dma.frames second_frame refl))
      (stops refl)

abbrev example_calls : List Call
example_calls =
    calls_before
    ++ destroy (Object.stream 4)
      ∷ destroy (Object.core 3)
      ∷ destroy (Object.context 2)
      ∷ destroy (Object.main_loop 1)
      ∷ []

stops_with_frames : Run new_system example_calls stopped
unfolding stop_rest stop_recycler after_start start after_process handle_process new_system
    on_param_changed
stops_with_frames = then_step is_stopping (tears_down refl)

-- While the capture runs, the end of a frame gives its buffer back.
gives_back : recycle with_both.recyclers (some 0) 51 ≡ queue 4 51 ∷ []
unfolding start after_start handle_process after_process new_system recycle on_param_changed
gives_back = refl

keeps_back : recycle stopped.recyclers (some 0) 51 ≡ []
unfolding start after_start handle_process after_process stop_recycler stop_rest new_system recycle
    on_param_changed
keeps_back = refl

Run-safe_example :
    (w : Server) × ((perform_all example_calls no_objects ≡ some w)
      × (w.objects ≡ objects_of stopped.capture)
      × (stopped.stopping ≡ false → (b : ℕ) → w.taken b ≡ held stopped.recyclers stopped.frames b))
Run-safe_example = Run-safe stopped example_calls stops_with_frames

-- Without a callback the buffer is queued by the handler, and again by the end of the frame.
queues_twice :
    (handle_process streaming_state
      (some (buffer dma_buf 50))
      (pos 0)
      (record started.capture { dma_cb = false })
      started.recyclers).1
    ≡ dequeue 4 50 ∷ queue 4 50 ∷ queue 4 50 ∷ []
unfolding start after_start handle_process new_system recycle
queues_twice = refl

Run-stop_rest_example :
    ((w : Server) × ((perform_all (calls_before ++ (stop_rest stopping.capture).1) no_objects
          ≡ some w)
        × (w.objects ≡ [])))
    × ((before after : List Frame) (f : Frame)
        → stopping.frames ≡ before ++ f ∷ after
        → recycle stopping.recyclers f.on_frame_done.recycler f.on_frame_done.buffer ≡ [])
Run-stop_rest_example = Run-stop_rest stopping calls_before is_stopping refl

-- A format that is offered, and that a frame cannot name.
offers_unknown :
    map spa_to_pixel_format (build_stream_params true).formats
    ≡ bgrx ∷ bgra ∷ rgbx ∷ rgba ∷ unknown ∷ []
unfolding build_stream_params spa_to_pixel_format
offers_unknown = refl

Run-descriptors_example :
    ((Descriptors.perform_all example_calls no_descriptors).own ≡ [])
    × (length (Descriptors.perform_all example_calls no_descriptors).of_cores
        ≡ size_of stopped.capture.core)
    × ((Descriptors.perform_all example_calls no_descriptors).bad_closes
        ≡ failed_connects example_calls)
Run-descriptors_example = Run-descriptors stopped example_calls stops_with_frames

-- PipeWire fails to connect, and its descriptor is closed twice.
closes_twice :
    (Descriptors.perform_all
      (start
        (record answers { new_core = none })
        pipe_wire_capture
        (record { stream_of = λ r. none; count = 0 })).3
      no_descriptors).bad_closes
    ≡ 1
unfolding start pipe_wire_capture Descriptors.perform_all perform
closes_twice = refl

declares : (updated_params false).data_types ≡ mem_ptr ∷ mem_fd ∷ []
unfolding updated_params
declares = refl
