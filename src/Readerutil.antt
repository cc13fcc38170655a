-- ===== src/Readerutil.antt =====
-- The readers of readerutil, and what they read from.
pub mod Parts
pub mod Buffering
pub mod FakeSeeker
pub mod Size
pub mod Runs
