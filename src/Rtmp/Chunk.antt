-- ===== src/Rtmp/Chunk.antt =====
-- src/rtmp/rtmp_chunk_stream.cpp and rtmp_chunk_stream.h: messages cut into chunks and put
-- together again.
pub mod Message
pub mod Encoder
pub mod Decoder
pub mod Headers
pub mod Landing
pub mod NextLanding
pub mod Frames
pub mod Delivery
pub mod RoundTrip
pub mod Split
pub mod Total
mod Examples
