-- ===== src/Resource.antt =====
-- Resource controls: src/resource and include/resource.
pub mod Affinity
pub mod IoPriority
pub mod Scheduler
