-- ===== src/Server/Connection/Describe.antt =====
-- `handleDescribe`, `parseAnnouncedPathConfig` and `handleAnnounce` of src/server/rtsp_server.cpp.
pub mod Announced
pub mod AnnouncedHevc
pub mod Pushed
use rtsp_sdk.Common.{
  ℕ, Bool, not, ◌&&◌, ◌||◌, Option, none, some, List, [], ◌∷◌, ◌++◌, ◌==◌, if◌then◌else◌,
}
use rtsp_sdk.Text.Chars.{Text, codes, lower}
use rtsp_sdk.Text.Search.{same, find_char, contains, is_empty}
use rtsp_sdk.Text.Dict.{lookup}
use rtsp_sdk.Text.Numbers.{ℤ}
use rtsp_sdk.Text.Base64.{base64_encode, base64_decode}
use rtsp_sdk.Rtsp.Request.{Request, up_to}
use rtsp_sdk.Rtsp.Response.{create_describe, create_ok, set_header, set_session}
use rtsp_sdk.Sdp.Builder.{
  SdpBuilder, new_builder, set_version, set_origin, set_session_name, set_time, set_connection,
  add_h264_media, add_h265_media, build,
}
use rtsp_sdk.Sdp.Parser.{MediaInfo, parse, get_video_info, ends_with}
use rtsp_sdk.Rtp.Frame.{CodecType, h264, h265}
use rtsp_sdk.Server.Config.{PathConfig}
use rtsp_sdk.Server.Session.{ClientSession, new_session, publisher}
use rtsp_sdk.Server.Paths.{MediaPath, put_path}
use rtsp_sdk.Server.Url.{extract_path}
use rtsp_sdk.Server.Connection.{
  Env, State, send_response, not_found, bad_request, not_allowed, open_session, on_server,
}

-- The address in the description.
unfoldable pub sdp_ip : Text → Text
sdp_ip ip = if is_empty ip || same ip (codes "0.0.0.0") then codes "127.0.0.1" else ip

abbrev pub add_media : CodecType → PathConfig → SdpBuilder → SdpBuilder
add_media h264 c b =
    add_h264_media (codes "stream") 0 96 90000 (base64_encode c.sps) (base64_encode c.pps) c.width
      c.height b
add_media h265 c b =
    add_h265_media (codes "stream") 0 97 90000 (base64_encode c.vps) (base64_encode c.sps)
      (base64_encode c.pps) c.width c.height b

unfoldable pub describe_sdp : Env → PathConfig → Text
describe_sdp env c =
    let ip = sdp_ip env.local_ip in
    let head = set_connection (codes "IN") (codes "IP4") ip (
      set_time 0 0 (
        set_session_name (codes "RTSP Stream") (
          set_origin (codes "-") env.seconds env.seconds (codes "IN") (codes "IP4") ip
            (set_version 0 (new_builder env.seconds))))) in
    build (add_media c.codec c head)

abbrev pub or_text : Text → Text → Text
or_text [] t = t
or_text (c ∷ s) t = c ∷ s

-- The URI up to its query, or what stands for it, with a slash at the end.
unfoldable pub content_base : Request → Text
content_base r =
    let base = or_text (or_text (up_to r.uri (find_char b'?' r.uri)) r.path) (codes "rtsp://") in
    if ends_with b'/' base then base else base ++ (b'/' ∷ [])

unfoldable pub describe_path : Env → Request → ℤ → Option MediaPath → State → State
describe_path env r cseq none st = not_found env cseq st
describe_path env r cseq (some m) st =
    send_response env
      (set_header (codes "Content-Base") (content_base r)
        (create_describe cseq (describe_sdp env m.config)))
      st

unfoldable pub handle_describe : Env → Request → ℤ → State → State
handle_describe env r cseq st =
    describe_path env r cseq (lookup (extract_path r.path) st.server.paths) st

abbrev pub or_number : ℕ → ℕ → ℕ
or_number v d = if v == 0 then d else v

unfoldable pub announced_config : Text → Bool → MediaInfo → PathConfig
announced_config path is_h265 v = record {
  path = path;
  codec = if is_h265 then h265 else h264;
  width = or_number v.width 1920;
  height = or_number v.height 1080;
  fps = or_number v.fps 30;
  sps = if is_empty v.sps then [] else base64_decode v.sps;
  pps = if is_empty v.pps then [] else base64_decode v.pps;
  vps = if is_empty v.vps then [] else base64_decode v.vps;
}

unfoldable pub announced_media : Text → MediaInfo → Option (PathConfig × ℕ)
announced_media path v =
    let name = lower v.payload_name in
    let is_h264 = contains (codes "264") name in
    let is_h265 = contains (codes "265") name || contains (codes "hevc") name in
    if not is_h264 && not is_h265 || (v.payload_type == 0 || v.clock_rate == 0)
    then none
    else some (announced_config path is_h265 v, v.payload_type)

abbrev pub first_media : Text → List MediaInfo → Option (PathConfig × ℕ)
first_media path [] = none
first_media path (m ∷ ms) = announced_media path (get_video_info (m ∷ ms))

-- `none` is `false`.
unfoldable pub parse_announced : Text → Text → Option (PathConfig × ℕ)
parse_announced path sdp = first_media path (parse sdp)

-- Sets that were announced empty leave the old ones.
unfoldable pub update_config : PathConfig → PathConfig → PathConfig
update_config new old = record old {
  codec = new.codec;
  width = new.width;
  height = new.height;
  fps = new.fps;
  sps = if is_empty new.sps then old.sps else new.sps;
  pps = if is_empty new.pps then old.pps else new.pps;
  vps = if is_empty new.vps then old.vps else new.vps;
}

abbrev pub announced_path : PathConfig → Option MediaPath → MediaPath
announced_path c none = record { config = update_config c c; sessions = []; latest_frame = none }
announced_path c (some m) = record m { config = update_config c m.config }

unfoldable pub publisher_session : Env → Text → ℕ → ClientSession
publisher_session env path payload_type = record (new_session env.now) {
  session_id = env.session_id;
  path = path;
  client_ip = env.peer_ip;
  role = publisher;
  publisher_payload_type = payload_type;
}

unfoldable pub announce_path : Env → ℤ → Text → Option (PathConfig × ℕ) → State → State
announce_path env cseq path none st = bad_request env cseq st
announce_path env cseq path (some (c, payload_type)) st =
    send_response env (set_session env.session_id (create_ok cseq)) (
      open_session (publisher_session env path payload_type)
        (on_server (put_path path (announced_path c (lookup path st.server.paths))) st))

abbrev pub announce_with : Option ℕ → Env → Request → ℤ → State → State
announce_with (some a) env r cseq st = not_allowed env cseq st
announce_with none env r cseq st =
    let path = extract_path r.path in announce_path env cseq path (parse_announced path r.body) st

unfoldable pub handle_announce : Env → Request → ℤ → State → State
handle_announce env r cseq st = announce_with st.session env r cseq st
