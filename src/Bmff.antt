-- ===== src/Bmff.antt =====
-- media/heif/bmff: the reader of ISO BMFF boxes.
pub mod Stream
pub mod Encode
pub mod Fields
pub mod Reader
pub mod Boxes
pub mod Parser
pub mod Parse
