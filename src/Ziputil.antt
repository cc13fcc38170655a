-- ===== src/Ziputil.antt =====
-- The reading of zip archives in ziputil/ziputil.go.
pub mod ReadBuf
pub mod Names
pub mod Header
pub mod End
pub mod Toc
pub mod Bounds
pub mod Written
pub mod ReadBack
pub mod Find
pub mod EndFound
pub mod RoundTrip
pub mod Open
pub mod Checksum
pub mod OpenAt
pub mod Fuel
mod Runs
pub mod Times
