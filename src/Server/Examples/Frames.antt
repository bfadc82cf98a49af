-- ===== src/Server/Examples/Frames.antt =====
-- The theorems on the frames and the sessions of a path at concrete inputs.
use rtsp_sdk.Common.{
  false, ℕ, ◌+◌, ◌≡◌, refl, true, inl, none, some, List, [], ◌∷◌, ◌++◌, if◌then◌else◌, arith,
}
use rtsp_sdk.Text.Chars.{Text, codes, drop_end, cons_unless}
use rtsp_sdk.Text.Search.{same, find, starts_with, contains}
use rtsp_sdk.Text.Dict.{lookup}
use rtsp_sdk.Text.Numbers.{pos}
use rtsp_sdk.Rtp.Nalu.AnnexB.{annex_b}
use rtsp_sdk.Rtsp.Request.{new_request}
use rtsp_sdk.Rtsp.Response.{Response}
use rtsp_sdk.Server.Config.{PathConfig, default_path_config}
use rtsp_sdk.Net.Socket.{socket_link, shutdown_read_write}
use rtsp_sdk.Rtp.Frame.{h264}
use rtsp_sdk.Rtp.Packer.{Packer, new_packer}
use rtsp_sdk.Rtp.Sender.{new_sender}
use rtsp_sdk.Server.Session.Sending.{Outlet}
use rtsp_sdk.Server.Session.{ClientSession, LocalSender, new_session}
use rtsp_sdk.Server.Url.{extract_path, normalize_path}
use rtsp_sdk.Server.Paths.{Server, MediaPath, session_at, cleanup, push_to_path}
use rtsp_sdk.Server.Paths.Expired.Swept.{Swept, Outcome, among_any, cleanup-Swept}
use rtsp_sdk.Server.Paths.Broadcast.{among, Receives, push_to_path-Receives}
use rtsp_sdk.Server.Paths.Extract.{push_h264_data}
use rtsp_sdk.Server.Connection.{on_server}
use rtsp_sdk.Server.Connection.Describe.{handle_describe, parse_announced}
use rtsp_sdk.Server.Connection.Describe.Announced.{config_of}
use rtsp_sdk.Server.Connection.Describe.Pushed.{IsKeyFrame, handle_describe-push_h264_data}
use rtsp_sdk.Server.Examples.{
  an_env, empty_server, live_config, connected, a_frame, fed_server, describe_request,
}

cleanup-Swept_example :
    Swept 90_000_000_000 fed_server fed_server.paths (cleanup 90_000_000_000 fed_server).paths
    × ((cleanup 90_000_000_000 fed_server).config ≡ fed_server.config)
    × ((b : ℕ)
        → Outcome 90_000_000_000 fed_server
            (among_any fed_server.paths b)
            (session_at fed_server b)
            (session_at (cleanup 90_000_000_000 fed_server) b))
cleanup-Swept_example = cleanup-Swept 90_000_000_000 fed_server

abbrev old_config : PathConfig
old_config = record live_config { sps = 0x67 ∷ 0x42 ∷ 0 ∷ 20 ∷ [] }

-- A path with two sessions, of which one plays.
abbrev live_path : MediaPath
live_path = record {
  config = old_config;
  sessions = (codes "a", 0) ∷ (codes "b", 1) ∷ [];
  latest_frame = none;
}

abbrev two_sessions : Server
two_sessions = record empty_server {
  paths = (codes "/live", live_path) ∷ [];
  objects = record (new_session 1) { playing = true } ∷ new_session 2 ∷ [];
}

live_there : lookup (codes "/live") two_sessions.paths ≡ some live_path
unfolding lookup same
live_there = refl

push_to_path-Receives_example :
    ((push_to_path (codes "/live") (a_frame 7) two_sessions).1 ≡ true)
    × ((q : Text)
        → lookup q (push_to_path (codes "/live") (a_frame 7) two_sessions).0.paths ≡ (
            if same (codes "/live") q
            then some (record live_path { latest_frame = some (a_frame 7) })
            else lookup q two_sessions.paths))
    × ((push_to_path (codes "/live") (a_frame 7) two_sessions).0.stats.frames_pushed ≡ 0 + 1)
    × ((b : ℕ)
        → Receives
            (a_frame 7)
            (among live_path.sessions b)
            (session_at two_sessions b)
            (session_at (push_to_path (codes "/live") (a_frame 7) two_sessions).0 b))
unfolding among
push_to_path-Receives_example =
    push_to_path-Receives (a_frame 7) (codes "/live") live_path two_sessions live_there
      (refl, (refl, tt))

abbrev an_sps : List ℕ
an_sps = 0x67 ∷ 0x42 ∷ 1 ∷ 30 ∷ []

abbrev a_pps : List ℕ
a_pps = 0x68 ∷ 0xce ∷ []

abbrev a_slice : List ℕ
a_slice = 0x65 ∷ 1 ∷ []

key-IsKeyFrame : IsKeyFrame an_sps a_pps a_slice
key-IsKeyFrame = record {
  units = (
    (
      omega arith,
      (inl (omega arith), (inl (omega arith), (inl (omega arith), (inl (omega arith), tt)))),
    ),
    (
      (omega arith, (inl (omega arith), (inl (omega arith), tt))),
      ((omega arith, (inl (omega arith), (inl (omega arith), tt))), tt),
    ),
  );
  sps_bytes = ground arith;
  pps_bytes = ground arith;
  sps_kind = refl;
  pps_kind = refl;
  not_sps = λ e. cc;
  not_pps = λ e. cc;
}

described_there :
    lookup (extract_path describe_request.path) (connected two_sessions).server.paths
    ≡ some live_path
unfolding lookup same extract_path new_request contains find starts_with normalize_path drop_end
    cons_unless
described_there = refl

handle_describe-push_h264_data_example :
    (resp : Response) × ((handle_describe an_env describe_request (pos 2) (
        on_server
          (λ w.
            (push_h264_data
              (extract_path describe_request.path)
              (annex_b (an_sps ∷ a_pps ∷ a_slice ∷ []))
              40
              true
              w).0)
          (connected two_sessions))).replies
      ≡ [] ++ (resp ∷ []))
    × (parse_announced (codes "/copy") resp.body
        ≡ some (config_of (codes "/copy") (record old_config { sps = an_sps; pps = a_pps }), 96))
unfolding default_path_config
handle_describe-push_h264_data_example =
    handle_describe-push_h264_data an_sps a_pps a_slice key-IsKeyFrame an_env describe_request
      (pos 2) (connected two_sessions) live_path 40 (codes "/copy") described_there refl
      (omega arith, omega arith) (omega arith, omega arith) (ground arith)

abbrev udp_sender : LocalSender
udp_sender = record {
  sender = record new_sender {
    peer_ip = codes "10.0.0.2";
    peer_rtp_port = 5000;
    peer_rtcp_port = 5001;
  };
  rtp_port = 10000;
  rtcp_port = 10001;
}

-- A session over UDP, before its 100th packet.
abbrev over_udp : ClientSession
over_udp = record (new_session 1) {
  rtp_packer = some (h264, new_packer);
  rtp_sender = some udp_sender;
  playing = true;
}

abbrev an_outlet : Outlet socket_link shutdown_read_write
an_outlet = record {
  conn = record { is_open = true; schedule = []; sent = [] };
  datagrams = [];
  counts = record {
    packet_count = 99;
    octet_count = 5000;
    rtp_packets_sent = 99;
    rtp_bytes_sent = 5000;
  };
  send_failed = false;
}
