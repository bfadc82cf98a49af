-- ===== src/Stream.antt =====
-- From the packer of src/rtsp-common/rtp_packer.cpp to the receiver of src/client/rtsp_client.cpp.
pub mod Wire
pub mod FuHeader
pub mod Took
pub mod Delivery
pub mod Fragments
pub mod Frames
pub mod Emission
pub mod Interleaved
mod Examples
