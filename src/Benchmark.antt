-- ===== src/Benchmark.antt =====
-- Frame timing: src/benchmark and include/benchmark.
pub mod RingBuffer
pub mod FrameMetrics
pub mod HighResTimer
