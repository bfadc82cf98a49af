-- ===== src/Server.antt =====
-- The RTSP server of src/server/rtsp_server.cpp: its configuration, its media paths and sessions, and
-- the connection that serves one client.
pub mod Config
pub mod Url
pub mod Session
pub mod Paths
pub mod Auth
pub mod Connection
pub mod Api
mod Examples
