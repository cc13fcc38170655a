-- ===== src/Heif.antt =====
-- media/heif/heif.go: HEIF containers, read through and written for media/heif/bmff.
pub mod File
pub mod Items
pub mod Encode
pub mod Derived
pub mod Standalone
pub mod Cache
pub mod Dimensions
mod Runs
