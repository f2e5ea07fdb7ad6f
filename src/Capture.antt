-- ===== src/Capture.antt =====
-- The screen capture: src/capture and include/capture.
pub mod Frames
pub mod PipeWire
pub mod Portal
