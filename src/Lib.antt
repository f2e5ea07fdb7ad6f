-- ===== src/Lib.antt =====
-- Smooth-Demon, a system monitor and frame pacer for games on Linux (C++).
--
-- The program is a library of independent monitors (CPU, memory, temperature, GPU, process, system
-- information), the frame statistics and timers, the presentation pacer, the resource controls
-- (affinity, I/O priority, scheduling), an OpenCL wrapper and a screen capture. A client calls each
-- in turn; the pacer is meant to be fed with the durations that the OpenCL profiling measures, and
-- the PipeWire capture with the descriptor and the node that the portal session obtains.
--
-- Which file models which part (paths from the repository's root):
--   Pacer/Presentation  src/pacer/PresentationPacer.cpp, include/pacer/PresentationPacer.h
--   Pacer/TimerFd       src/pacer/TimerFd.cpp, include/pacer/TimerFd.h
--   Pacer/FrameLoop     the loop of tests/test_pacer.cpp, which drives both
--   Benchmark           src/benchmark, include/benchmark: RingBuffer, FrameMetrics, HighResTimer
--   Cpu                 src/cpu.cpp, include/cpu.hpp
--   Memory              src/memory.cpp, include/memory.hpp
--   Temperature         src/temperature.cpp, include/temperature.hpp
--   Process             src/process.cpp, include/process.hpp
--   Gpu                 src/gpu.cpp, include/gpu.hpp
--   Resource            src/resource, include/resource: CpuAffinity, IOPriority, ProcessScheduler
--   SystemInfo          src/system_info.cpp, include/system_info.hpp
--   Compute             src/compute, include/compute: OpenCLContext, OpenCLProgram, OpenCLBuffer,
--                       OpenCLProfiling; Compute/Objects has the references that OpenCL counts,
--                       and Compute/Client a client of all of them, like tests/test_opencl.cpp
--   Capture             src/capture, include/capture: the frames of FrameTypes.h, PipeWireCapture
--                       and PortalSession
--   Text                std::string, std::getline and digits, as the parsers use them
--   Double              the type double, an interface with the IEEE laws of comparison;
--                       Double/Percent adds those on when a result is not NaN
--   Prelude             lists, integers and 64-bit words that all parts share
--
-- A class is a record of its fields, and a method a function from the record to the new record and
-- its result; names are the source's in snake case (UpdateLastDrawDuration is
-- update_last_draw_duration). A file that is read, a clock and what a library's call answers are
-- arguments; calls on objects that a library counts are a list that the method gives. uint64_t and
-- size_t wrap at 2^64 (Prelude/Words). Doubles are abstract: a theorem about them holds for every
-- instance of Double. Double/Fixed is an instance that runs, and Double/Partial one with a NaN. What
-- std::sort returns is an argument too.
--
-- The loop of CalculateNextWakeup has fuel for 2^64 + 1 rounds, more than its 64-bit target has
-- values, so a run that is out of fuel never ends. The other loops recur on lists.
--
-- The threads of PipeWireCapture are a relation of steps (Capture/PipeWire/Steps): the loop's thread
-- calls the handlers while the client's thread is between two steps of Stop or lets frames die.
-- Capture/PipeWire/Server is PipeWire's side, where a call that is not possible has no result, and
-- Capture/PipeWire/Descriptors the operating system's, where a wrong close is counted.
--
-- `Stop` deactivates the stream by a function that the loop's thread runs; the model uses the stream
-- where `Stop` hands the function over.
--
-- Not modelled: pw_init and pw_deinit of src/capture/PipeWireCapture.cpp, which only count their
-- calls; src/main.cpp, which prints a banner; src/core_placeholder.cpp, whose function returns 0;
-- and messages on the error stream.
pub mod Prelude
pub mod Pacer
pub mod Benchmark
pub mod Double
pub mod Text
pub mod Compute
pub mod Capture
pub mod Cpu
pub mod Gpu
pub mod Memory
pub mod Process
pub mod Resource
pub mod SystemInfo
pub mod Temperature
