-- ===== src/Net.antt =====
-- Sockets as the protocol code sees them: src/rtsp-common/socket.cpp.
pub mod Link
pub mod Socket
