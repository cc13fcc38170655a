-- ===== src/Syncutil.antt =====
-- The primitives of syncutil, each with all its threads as one system.
pub mod Threads
pub mod Sem
pub mod Gate
pub mod Once
pub mod Group
pub mod Singleflight
mod Runs
