-- ===== src/Rtmp/Amf0.antt =====
-- src/rtmp/amf0_codec.cpp and amf0_codec.h: the values of AMF0 and the two directions of the codec.
pub mod Value
pub mod Encode
pub mod Decode
pub mod RoundTrip
pub mod Sound
pub mod Sequence
pub mod Access
mod Examples
