-- ===== src/Server/Connection/Setup.antt =====
-- `handlePlayerSetup`, `handlePublisherSetup` and `handleSetup` of src/server/rtsp_server.cpp.
use rtsp_sdk.Common.{
  ℕ, zero, suc, ◌+◌, ◌%◌, ◌^◌, Bool, true, false, ◌||◌, Option, none, some, List, [], ◌∷◌, ◌++◌,
  length, leb, ◌==◌, if◌then◌else◌,
}
use rtsp_sdk.Text.Chars.{Text, codes, lower}
use rtsp_sdk.Text.Search.{contains}
use rtsp_sdk.Text.Dict.{lookup}
use rtsp_sdk.Text.Numbers.{ℤ, digits, parse_uint32_safe}
use rtsp_sdk.Text.Patterns.{◌>>=◌, literal, number, search}
use rtsp_sdk.Rtsp.Request.{Request}
use rtsp_sdk.Rtsp.Transport.{get_transport, get_rtp_port, get_rtcp_port}
use rtsp_sdk.Rtsp.Response.{create_setup}
use rtsp_sdk.Rtp.Frame.{CodecType, h264, h265}
use rtsp_sdk.Rtp.Packer.{Packer, new_packer, set_ssrc, set_payload_type}
use rtsp_sdk.Rtp.Sender.{new_sender, set_peer, set_report_ssrc}
use rtsp_sdk.Server.Config.{ServerConfig, get_next_rtp_port}
use rtsp_sdk.Server.Session.{
  ClientSession, Role, player, publisher, LocalSender, PublishReceiver, new_session,
}
use rtsp_sdk.Server.Paths.{MediaPath, Server, session_at, add_session}
use rtsp_sdk.Server.Url.{extract_path, up_to}
use rtsp_sdk.Server.Connection.{
  Env, State, send_response, send_error, not_valid, not_found, bad_request, not_allowed,
  internal_error, open_session, on_session, on_server,
}

-- `find_last_of('/')`.
abbrev pub later_or : Option ℕ → Option ℕ → Option ℕ
later_or none o = o
later_or (some i) o = some (suc i)

unfoldable pub last_slash : Text → Option ℕ
last_slash [] = none
last_slash (c ∷ s) = later_or (last_slash s) (if c == b'/' then some 0 else none)

-- The path of a setup URL, without the control name.
unfoldable pub setup_path : Text → Text
setup_path url = let p = extract_path url in up_to p (last_slash p)

unfoldable pub uses_tcp : Text → Bool
uses_tcp transport = contains (codes "RTP/AVP/TCP") transport || contains (codes "TCP") transport

unfoldable pub next_port : ServerConfig → ℕ
next_port cfg = (get_next_rtp_port cfg.rtp_port_current cfg.rtp_port_start cfg.rtp_port_end).0

unfoldable pub advance_port : ServerConfig → ServerConfig
advance_port cfg = record cfg {
  rtp_port_current = (get_next_rtp_port cfg.rtp_port_current cfg.rtp_port_start cfg.rtp_port_end).1;
}

-- The attempts to bind a pair of ports; answers that are used up are failures.
unfoldable pub bind_ports : ℕ → List Bool → ServerConfig → ServerConfig × Option ℕ
bind_ports zero binds cfg = (cfg, none)
bind_ports (suc n) [] cfg = bind_ports n [] (advance_port cfg)
bind_ports (suc n) (true ∷ binds) cfg = (advance_port cfg, some (next_port cfg))
bind_ports (suc n) (false ∷ binds) cfg = bind_ports n binds (advance_port cfg)

abbrev pub attempts : ℕ
attempts = 32

-- The RTCP port of the client, in 16 bits.
unfoldable pub rtcp_or_next : ℕ → ℕ → ℕ
rtcp_or_next rtp rtcp = (if rtcp == 0 then rtp + 1 else rtcp) % 2 ^ 16

-- `interleaved=(\d+)-(\d+)`.
unfoldable pub channel_pattern : Text → Option Text
channel_pattern s = do
  a ← literal (codes "interleaved=") s
  x ← number a
  b ← literal (codes "-") x.1
  y ← number b
  some x.0

abbrev pub channel_in : Option ℕ → ℕ
channel_in none = 0
channel_in (some ch) = if leb ch 255 then ch else 0

unfoldable pub channel_of : Text → ℕ
channel_of transport = channel_in (search channel_pattern transport >>= parse_uint32_safe)

abbrev pub payload_type_of : CodecType → ℕ
payload_type_of h264 = 96
payload_type_of h265 = 97

unfoldable pub ssrc_of : Env → ℕ
ssrc_of env = (0x1234_5678 + env.id_hash) % 2 ^ 32

unfoldable pub packer_for : Env → CodecType → Packer
packer_for env codec = set_ssrc (set_payload_type new_packer (payload_type_of codec)) (ssrc_of env)

-- The sender bound to a port, for a client.
unfoldable pub sender_for : Env → Request → ℕ → LocalSender
sender_for env r port = record {
  sender =
      set_report_ssrc
        (set_peer new_sender env.peer_ip (get_rtp_port r)
          (rtcp_or_next (get_rtp_port r) (get_rtcp_port r)))
        (ssrc_of env);
  rtp_port = port;
  rtcp_port = (port + 1) % 2 ^ 16;
}

abbrev pub map_option {ℓ κ} : {A : Type ℓ} {B : Type κ} → (A → B) → Option A → Option B
map_option f none = none
map_option f (some a) = some (f a)

-- The session of a player, over TCP without a port and over UDP with one.
unfoldable pub player_session : Env → Request → Text → CodecType → Option ℕ → ClientSession
player_session env r path codec port = record (new_session env.now) {
  session_id = env.session_id;
  path = path;
  client_ip = env.peer_ip;
  role = player;
  client_rtp_port = get_rtp_port r;
  client_rtcp_port = rtcp_or_next (get_rtp_port r) (get_rtcp_port r);
  use_tcp_interleaved = uses_tcp (get_transport r);
  interleaved_rtp_channel = if uses_tcp (get_transport r) then channel_of (get_transport r) else 0;
  rtp_sender = map_option (sender_for env r) port;
  rtp_packer = some (codec, packer_for env codec);
}

unfoldable pub tcp_transport : ℕ → Text
tcp_transport channel =
    codes "RTP/AVP/TCP;unicast;interleaved=" ++ (digits channel ++ (b'-' ∷ digits (channel + 1)))

unfoldable pub udp_transport : ℕ → ℕ → ℕ → ℕ → Text
udp_transport client_rtp client_rtcp server_rtp server_rtcp =
    codes "RTP/AVP;unicast;client_port="
    ++ (digits client_rtp
        ++ (b'-'
            ∷ (digits client_rtcp
                ++ (codes ";server_port=" ++ (digits server_rtp ++ (b'-' ∷ digits server_rtcp))))))

abbrev pub transport_reply : Request → Option ℕ → Text
transport_reply r none = tcp_transport (channel_of (get_transport r))
transport_reply r (some port) =
    udp_transport (get_rtp_port r) (rtcp_or_next (get_rtp_port r) (get_rtcp_port r)) port
      ((port + 1) % 2 ^ 16)

unfoldable pub count_created : Server → Server
count_created w = record w {
  stats = record w.stats { sessions_created = w.stats.sessions_created + 1 };
}

unfoldable pub note_connect : Text → Text → Server → Server
note_connect path ip w = record w { connects = w.connects ++ ((path, ip) ∷ []) }

-- The new session is put under its path, counted and reported.
unfoldable pub register_player : Env → Text → MediaPath → ℕ → Server → Server
register_player env path m a w =
    note_connect path env.peer_ip (count_created (add_session path m env.session_id a w))

unfoldable pub set_config : ServerConfig → State → State
set_config cfg st = record st { server = record st.server { config = cfg } }

unfoldable pub start_player : Env → Request → ℤ → Text → MediaPath → Option ℕ → State → State
start_player env r cseq path m port st =
    send_response env (create_setup cseq env.session_id (transport_reply r port)) (
      on_server (register_player env path m (length st.server.objects))
        (open_session (player_session env r path m.config.codec port) st))

-- Over UDP, behind the attempts to bind.
abbrev pub bound_player :
    Env → Request → ℤ → Text → MediaPath → ServerConfig × Option ℕ → State → State
bound_player env r cseq path m (cfg, none) st = internal_error env cseq (set_config cfg st)
bound_player env r cseq path m (cfg, some port) st =
    start_player env r cseq path m (some port) (set_config cfg st)

unfoldable pub player_on_path : Env → Request → ℤ → Text → Option MediaPath → State → State
player_on_path env r cseq path none st = not_found env cseq st
player_on_path env r cseq path (some m) st =
    if uses_tcp (get_transport r)
    then start_player env r cseq path m none st
    else if get_rtp_port r == 0
    then bad_request env cseq st
    else bound_player env r cseq path m (bind_ports attempts env.binds st.server.config) st

abbrev pub player_setup_with : Option ℕ → Env → Request → ℤ → State → State
player_setup_with (some a) env r cseq st = not_allowed env cseq st
player_setup_with none env r cseq st =
    let path = setup_path r.path in player_on_path env r cseq path (lookup path st.server.paths) st

unfoldable pub handle_player_setup : Env → Request → ℤ → State → State
handle_player_setup env r cseq st = player_setup_with st.session env r cseq st

unfoldable pub set_client_ports : Request → ClientSession → ClientSession
set_client_ports r s = record s {
  client_rtp_port = get_rtp_port r;
  client_rtcp_port = rtcp_or_next (get_rtp_port r) (get_rtcp_port r);
}

unfoldable pub receiver_for : MediaPath → ClientSession → ℕ → PublishReceiver
receiver_for m s port = record {
  rtp_port = port;
  rtcp_port = (port + 1) % 2 ^ 16;
  is_open = true;
  running = false;
  codec = m.config.codec;
  width = m.config.width;
  height = m.config.height;
  fps = m.config.fps;
  payload_type = s.publisher_payload_type;
}

unfoldable pub set_receiver : PublishReceiver → ClientSession → ClientSession
set_receiver v s = record s { rtp_receiver = some v }

unfoldable pub receiver_reply : Env → Request → ℤ → ClientSession → PublishReceiver → State → State
receiver_reply env r cseq s v st =
    send_response env
      (create_setup cseq s.session_id (
        udp_transport (get_rtp_port r) (rtcp_or_next (get_rtp_port r) (get_rtcp_port r)) v.rtp_port
          v.rtcp_port))
      st

abbrev pub bound_receiver :
    Env → Request → ℤ → ℕ → ClientSession → MediaPath → ServerConfig × Option ℕ → State → State
bound_receiver env r cseq a s m (cfg, none) st = internal_error env cseq (set_config cfg st)
bound_receiver env r cseq a s m (cfg, some port) st =
    let v = receiver_for m s port in
    receiver_reply env r cseq s v (
      on_server (λ w. count_created (add_session s.path m s.session_id a w))
        (on_session a (set_receiver v) (set_config cfg st)))

-- The receiver is made once.
abbrev pub receiver_on_path :
    Option PublishReceiver → Env → Request → ℤ → ℕ → ClientSession → MediaPath → State → State
receiver_on_path (some v) env r cseq a s m st = receiver_reply env r cseq s v st
receiver_on_path none env r cseq a s m st =
    bound_receiver env r cseq a s m (bind_ports attempts env.binds st.server.config) st

abbrev pub publisher_on_path :
    Option MediaPath → Env → Request → ℤ → ℕ → ClientSession → State → State
publisher_on_path none env r cseq a s st = not_found env cseq st
publisher_on_path (some m) env r cseq a s st =
    receiver_on_path s.rtp_receiver env r cseq a s m (on_session a (set_client_ports r) st)

unfoldable pub publisher_ports : Env → Request → ℤ → ℕ → ClientSession → State → State
publisher_ports env r cseq a s st =
    if contains (codes "tcp") (lower (get_transport r))
    then send_error env cseq 461 (codes "Unsupported Transport") st
    else if get_rtp_port r == 0
    then bad_request env cseq st
    else publisher_on_path (lookup s.path st.server.paths) env r cseq a s st

abbrev pub as_publisher : Role → Env → Request → ℤ → ℕ → ClientSession → State → State
as_publisher player env r cseq a s st = not_valid env cseq st
as_publisher publisher env r cseq a s st = publisher_ports env r cseq a s st

abbrev pub publisher_setup_with : Option ℕ → Env → Request → ℤ → State → State
publisher_setup_with none env r cseq st = not_valid env cseq st
publisher_setup_with (some a) env r cseq st =
    let s = session_at st.server a in as_publisher s.role env r cseq a s st

unfoldable pub handle_publisher_setup : Env → Request → ℤ → State → State
handle_publisher_setup env r cseq st = publisher_setup_with st.session env r cseq st

unfoldable pub is_record_transport : Text → Bool
is_record_transport transport = contains (codes "mode=record") (lower transport)

abbrev pub is_publisher : Role → Bool
is_publisher publisher = true
is_publisher player = false

abbrev pub has_publisher : Server → Option ℕ → Bool
has_publisher w none = false
has_publisher w (some a) = is_publisher (session_at w a).role

unfoldable pub handle_setup : Env → Request → ℤ → State → State
handle_setup env r cseq st =
    if is_record_transport (get_transport r) || has_publisher st.server st.session
    then handle_publisher_setup env r cseq st
    else handle_player_setup env r cseq st
