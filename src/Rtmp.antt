-- ===== src/Rtmp.antt =====
-- The RTMP publisher's wire formats: src/rtmp.
pub mod Amf0
pub mod Chunk
pub mod Flv
pub mod Handshake
