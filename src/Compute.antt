-- ===== src/Compute.antt =====
-- The OpenCL wrapper: src/compute and include/compute.
pub mod Objects
pub mod Context
pub mod Program
pub mod Buffer
pub mod Profiling
pub mod Client
