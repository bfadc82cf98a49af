-- ===== src/Text.antt =====
-- The text helpers of src/rtsp-common/common.cpp, and what the text code uses of std::string,
-- std::map and the streams.
pub mod Base64
pub mod Chars
pub mod Search
pub mod Lines
pub mod Numbers
pub mod Dict
pub mod Patterns
pub mod Md5
pub mod Find
pub mod Match
mod Examples
