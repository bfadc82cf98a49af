-- ===== src/Server/Examples.antt =====
-- The theorems on the server at concrete inputs.
mod Frames
mod Auth
mod Feed
mod Described
use rtsp_sdk.Common.{ℕ, zero, suc, ◌+◌, ◌*◌, ◌-◌, ◌<◌, ◌≡◌, refl, true, none, List, [], ◌∷◌, arith}
use rtsp_sdk.Text.Chars.{codes}
use rtsp_sdk.Rtp.Frame.{VideoFrame, h264, idr}
use rtsp_sdk.Rtsp.Request.{Request, setup, describe, new_request}
use rtsp_sdk.Server.Config.{default_config, default_path_config, PathConfig, get_next_rtp_port}
use rtsp_sdk.Server.Config.Ports.{current_after, every_port_comes}
use rtsp_sdk.Server.Session.{new_session, max_queue_size}
use rtsp_sdk.Server.Session.Queue.{push_frames, last_of, push_frames-last_of}
use rtsp_sdk.Server.Paths.{Server, add_path, push_to_path, cleanup}
use rtsp_sdk.Server.Connection.{Env, State}
use rtsp_sdk.Server.Connection.Requests.{serve}
use rtsp_sdk.Server.Connection.Phases.{Follows}
use rtsp_sdk.Server.Connection.Phases.Machine.{serve-Follows}
use rtsp_sdk.Server.Connection.Sound.{AllEquipped}
use rtsp_sdk.Server.Connection.Sound.Steps.{
  serves, pushes, adds, cleans, here, next, reachable-AllEquipped,
}

abbrev pub an_env : Env
an_env = record {
  peer_ip = codes "10.0.0.2";
  local_ip = codes "10.0.0.1";
  now = 5_000_000_000;
  seconds = 1_700_000_000;
  session_id = codes "00ff";
  id_hash = 77;
  nonce = codes "abcd";
  binds = true ∷ [];
  is_sent = true;
}

abbrev pub empty_server : Server
empty_server = record {
  config = default_config;
  paths = [];
  objects = [];
  stats = record {
    requests_total = 0;
    auth_challenges = 0;
    auth_failures = 0;
    sessions_created = 0;
    sessions_closed = 0;
    frames_pushed = 0;
  };
  connects = [];
  disconnects = [];
}

abbrev pub live_config : PathConfig
live_config = record default_path_config { path = codes "/live" }

abbrev pub live_server : Server
live_server = (add_path live_config empty_server).0

abbrev pub connected : Server → State
connected w = record {
  server = w;
  session = none;
  digest = record { nonce = codes "abcd"; created = 0; nc_seen = [] };
  replies = [];
  is_open = true;
}

abbrev setup_request : Request
setup_request = record new_request {
  method = setup;
  uri = codes "rtsp://h/live/stream";
  path = codes "rtsp://h/live/stream";
  headers =
      (codes "cseq", codes "3") ∷ (codes "transport", codes "RTP/AVP;client_port=5000-5001") ∷ [];
}

serve-Follows_example :
    Follows setup (connected live_server) (serve an_env setup_request (connected live_server))
serve-Follows_example = serve-Follows an_env setup_request (connected live_server) tt

abbrev pub a_frame : ℕ → VideoFrame
a_frame n = record {
  codec = h264;
  frame_type = idr;
  bytes = n ∷ [];
  pts = n;
  dts = n;
  width = 1920;
  height = 1080;
  fps = 30;
}

abbrev played_server : Server
played_server = (serve an_env setup_request (connected live_server)).server

abbrev pub fed_server : Server
fed_server = (push_to_path (codes "/live") (a_frame 1) played_server).0

reachable-AllEquipped_example : AllEquipped (cleanup 6_000_000_000 fed_server)
reachable-AllEquipped_example =
    reachable-AllEquipped empty_server (cleanup 6_000_000_000 fed_server)
      (next (adds live_config empty_server) (
        next (serves an_env setup_request (connected live_server)) (
          next (pushes (codes "/live") (a_frame 1) played_server)
            (next (cleans 6_000_000_000 fed_server) here))))
      tt

every_port_comes_example :
    (k : ℕ) × (k < 20000 - 10000)
    × ((get_next_rtp_port (current_after k 19998 10000 20000) 10000 20000).0 ≡ 10000 + 2 * 7)
every_port_comes_example =
    every_port_comes 10000 20000 (omega arith) 19998 7 (omega arith) (omega arith) (omega arith)

abbrev some_frames : ℕ → List VideoFrame
some_frames zero = []
some_frames (suc n) = a_frame n ∷ some_frames n

push_frames-last_of_example :
    (push_frames (new_session 1) (some_frames 32)).frame_queue
    ≡ last_of max_queue_size (some_frames 32)
unfolding new_session
push_frames-last_of_example =
    push_frames-last_of (new_session 1) (some_frames 32) refl (omega arith)

abbrev pub describe_request : Request
describe_request = record new_request {
  method = describe;
  uri = codes "/live";
  path = codes "/live";
}
