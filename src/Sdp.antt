-- ===== src/Sdp.antt =====
-- The session descriptions of src/rtsp-common/sdp.cpp.
pub mod Builder
pub mod Parser
pub mod Texts
pub mod Attributes
pub mod RoundTrip
pub mod Hevc
