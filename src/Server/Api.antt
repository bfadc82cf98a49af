-- ===== src/Server/Api.antt =====
-- The calls of `RtspServer` in src/server/rtsp_server.cpp that set the server up, and the start of a
-- connection.
use rtsp_sdk.Common.{Bool, true, false, none, List, [], ◌++◌, map, ℕ, if◌then◌else◌}
use rtsp_sdk.Text.Chars.{Text, codes}
use rtsp_sdk.Text.Search.{is_empty}
use rtsp_sdk.Rtp.Frame.{CodecType, VideoFrame, p}
use rtsp_sdk.Server.Config.{ServerConfig, PathConfig, default_path_config}
use rtsp_sdk.Server.Paths.{Server, add_path}
use rtsp_sdk.Server.Connection.{State}

-- The other `addPath`.
unfoldable pub add_path_named : Text → CodecType → Server → Server × Bool
add_path_named path codec w = add_path (record default_path_config { path = path; codec = codec }) w

unfoldable pub get_paths_snapshot : Server → List PathConfig
get_paths_snapshot w = map (λ e. e.1.config) w.paths

-- A nonce that is there stays; `fresh` is what `generateNonce` gives.
unfoldable pub keep_nonce : Text → Text → Text
keep_nonce fresh nonce = if is_empty nonce then codes "nonce-" ++ fresh else nonce

unfoldable pub with_auth : Bool → Text → Text → Text → Text → ServerConfig → ServerConfig
with_auth use_digest username password realm fresh cfg = record cfg {
  auth_enabled = true;
  auth_use_digest = use_digest;
  auth_username = username;
  auth_password = password;
  auth_realm = realm;
  auth_nonce = keep_nonce fresh cfg.auth_nonce;
}

unfoldable pub set_auth : Text → Text → Text → Text → Server → Server
set_auth username password realm fresh w = record w {
  config = with_auth false username password realm fresh w.config;
}

unfoldable pub set_auth_digest : Text → Text → Text → Text → Server → Server
set_auth_digest username password realm fresh w = record w {
  config = with_auth true username password realm fresh w.config;
}

-- The constructor of `RtspConnection`.
unfoldable pub new_connection : Text → ℕ → Server → State
new_connection fresh now w = record {
  server = w;
  session = none;
  digest = record { nonce = keep_nonce fresh w.config.auth_nonce; created = now; nc_seen = [] };
  replies = [];
  is_open = true;
}

unfoldable pub create_video_frame : CodecType → List ℕ → ℕ → ℕ → ℕ → ℕ → VideoFrame
create_video_frame codec bytes pts width height fps = record {
  codec = codec;
  frame_type = p;
  bytes = bytes;
  pts = pts;
  dts = pts;
  width = width;
  height = height;
  fps = fps;
}
