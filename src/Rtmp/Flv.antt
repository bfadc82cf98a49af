-- ===== src/Rtmp/Flv.antt =====
-- The video payloads of RTMP: src/rtmp/flv_tag_encoder.cpp and the two configuration records.
pub mod Avcc
pub mod Tags
pub mod Config
mod Examples
