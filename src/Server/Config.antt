-- ===== src/Server/Config.antt =====
-- `RtspServerConfig` and `PathConfig` of include/rtsp-server/rtsp_server.h, and the allocation of RTP
-- ports in src/server/rtsp_server.cpp.
pub mod Ports
use rtsp_sdk.Common.{ℕ, ◌+◌, ◌%◌, ◌^◌, Bool, false, List, [], ltb, leb, if◌then◌else◌}
use rtsp_sdk.Text.Chars.{Text, codes}
use rtsp_sdk.Rtp.Frame.{CodecType, h264}

pub record ServerConfig : Type 0 where
  pub session_timeout_ms : ℕ
  pub rtp_port_start : ℕ
  pub rtp_port_end : ℕ
  pub rtp_port_current : ℕ
  pub auth_enabled : Bool
  pub auth_use_digest : Bool
  pub auth_username : Text
  pub auth_password : Text
  pub auth_realm : Text
  pub auth_nonce : Text
  pub auth_nonce_ttl_ms : ℕ

unfoldable pub default_config : ServerConfig
default_config = record {
  session_timeout_ms = 60000;
  rtp_port_start = 10000;
  rtp_port_end = 20000;
  rtp_port_current = 10000;
  auth_enabled = false;
  auth_use_digest = false;
  auth_username = [];
  auth_password = [];
  auth_realm = codes "RTSP Server";
  auth_nonce = [];
  auth_nonce_ttl_ms = 60000;
}

pub record PathConfig : Type 0 where
  pub path : Text
  pub codec : CodecType
  pub width : ℕ
  pub height : ℕ
  pub fps : ℕ
  pub sps : List ℕ
  pub pps : List ℕ
  pub vps : List ℕ

unfoldable pub default_path_config : PathConfig
default_path_config = record {
  path = [];
  codec = h264;
  width = 1920;
  height = 1080;
  fps = 30;
  sps = [];
  pps = [];
  vps = [];
}

-- Additions on std::uint32_t.
abbrev pub add32 : ℕ → ℕ → ℕ
add32 a b = (a + b) % 2 ^ 32

unfoldable pub wrap_current : ℕ → ℕ → ℕ → ℕ
wrap_current current start end = if leb end (add32 current 1) then start else current

unfoldable pub valid_current : ℕ → ℕ → ℕ → ℕ
valid_current current start end =
    if ltb current start then start else wrap_current current start end

-- `getNextRtpPort`: the port, and `current` after the call.
unfoldable pub get_next_rtp_port : ℕ → ℕ → ℕ → ℕ × ℕ
get_next_rtp_port current start end =
    if leb end start then (current % 2 ^ 16, add32 current 2) else (
      valid_current current start end % 2 ^ 16,
      wrap_current (add32 (valid_current current start end) 2) start end,
    )
