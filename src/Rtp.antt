-- ===== src/Rtp.antt =====
-- Video over RTP: src/rtsp-common/rtp_packer.cpp and rtp_packer.h.
pub mod Frame
pub mod Nalu
pub mod Packer
pub mod Sender
mod Examples
