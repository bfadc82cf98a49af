-- ===== src/Rtsp.antt =====
-- The RTSP messages of src/rtsp-common/rtsp_request.cpp.
pub mod Headers
pub mod Request
pub mod Transport
pub mod Response
mod Examples
