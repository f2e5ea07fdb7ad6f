-- ===== src/Pacer.antt =====
-- The presentation scheduler: src/pacer and include/pacer.
pub mod Presentation
pub mod TimerFd
pub mod FrameLoop
