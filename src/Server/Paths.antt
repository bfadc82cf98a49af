-- ===== src/Server/Paths.antt =====
-- `MediaPath` of src/server/rtsp_server.cpp and the operations of `RtspServer` on its paths. A session
-- is shared by its connection and by its path: both hold its place in the list of all sessions.
pub mod Extract
pub mod Objects
pub mod Units
pub mod Expired
pub mod Broadcast
use rtsp_sdk.Common.{
  ℕ, zero, suc, ◌+◌, ◌-◌, ◌*◌, Bool, true, false, not, ◌&&◌, Option, none, some, List, [], ◌∷◌,
  ◌++◌, get_or, ltb, ◌==◌, if◌then◌else◌,
}
use rtsp_sdk.Text.Chars.{Text}
use rtsp_sdk.Text.Dict.{Dict, lookup, put, erase}
use rtsp_sdk.Rtp.Frame.{VideoFrame, FrameType, idr}
use rtsp_sdk.Server.Config.{ServerConfig, PathConfig}
use rtsp_sdk.Server.Session.{ClientSession, Role, player, publisher, new_session, stop, push_frame}

pub record MediaPath : Type 0 where
  pub config : PathConfig
  pub sessions : Dict ℕ
  pub latest_frame : Option VideoFrame

pub record Stats : Type 0 where
  pub requests_total : ℕ
  pub auth_challenges : ℕ
  pub auth_failures : ℕ
  pub sessions_created : ℕ
  pub sessions_closed : ℕ
  pub frames_pushed : ℕ

-- What all connections share. `objects` are the sessions, each at its place for good; `connects` and
-- `disconnects` are the calls of the callbacks, with path and client.
pub record Server : Type 0 where
  pub config : ServerConfig
  pub paths : Dict MediaPath
  pub objects : List ClientSession
  pub stats : Stats
  pub connects : List (Text × Text)
  pub disconnects : List (Text × Text)

unfoldable pub session_at : Server → ℕ → ClientSession
session_at w a = get_or w.objects a (new_session 0)

unfoldable pub update {ℓ} : {A : Type ℓ} → ℕ → (A → A) → List A → List A
update a f [] = []
update zero f (x ∷ xs) = f x ∷ xs
update (suc a) f (x ∷ xs) = x ∷ update a f xs

unfoldable pub change_session : ℕ → (ClientSession → ClientSession) → Server → Server
change_session a f w = record w { objects = update a f w.objects }

-- `paths_[p] = m`.
unfoldable pub put_path : Text → MediaPath → Server → Server
put_path p m w = record w { paths = put p m w.paths }

unfoldable pub push_if_playing : VideoFrame → ClientSession → ClientSession
push_if_playing frame s = if s.playing then push_frame s frame else s

unfoldable pub push_to_all : VideoFrame → Dict ℕ → Server → Server
push_to_all frame [] w = w
push_to_all frame ((id, a) ∷ d) w = push_to_all frame d (change_session a (push_if_playing frame) w)

-- `broadcastFrame` on the path `m`, which stands under `p`.
unfoldable pub broadcast_frame : Text → MediaPath → VideoFrame → Server → Server
broadcast_frame p m frame w =
    push_to_all frame m.sessions (put_path p (record m { latest_frame = some frame }) w)

abbrev pub is_idr : FrameType → Bool
is_idr idr = true
is_idr _ = false

unfoldable pub push_cached : Option VideoFrame → ℕ → Server → Server
push_cached none a w = w
push_cached (some frame) a w =
    if is_idr frame.frame_type then change_session a (λ s. push_frame s frame) w else w

-- `addSession` on the path `m` under `p`: the session at `a` is put under its id, and gets the latest
-- frame if that is an IDR.
unfoldable pub add_session : Text → MediaPath → Text → ℕ → Server → Server
add_session p m id a w =
    push_cached m.latest_frame a (put_path p (record m { sessions = put id a m.sessions }) w)

unfoldable pub remove_found : Text → MediaPath → Text → Option ℕ → Server → Server
remove_found p m id none w = w
remove_found p m id (some a) w =
    put_path p (record m { sessions = erase id m.sessions }) (change_session a stop w)

-- `removeSession` on the path under `p`, if there is one.
unfoldable pub remove_session_in : Text → Option MediaPath → Text → Server → Server
remove_session_in p none id w = w
remove_session_in p (some m) id w = remove_found p m id (lookup id m.sessions) w

unfoldable pub remove_session : Text → Text → Server → Server
remove_session p id w = remove_session_in p (lookup p w.paths) id w

abbrev pub is_absent {ℓ} : {A : Type ℓ} → Option A → Bool
is_absent none = true
is_absent (some a) = false

-- `addPath`.
unfoldable pub add_path : PathConfig → Server → Server × Bool
add_path config w =
    if is_absent (lookup config.path w.paths)
    then (
      put_path config.path (record { config = config; sessions = []; latest_frame = none }) w,
      true,
    )
    else (w, false)

-- The destructor of `MediaPath` stops its sessions.
unfoldable pub stop_all : Dict ℕ → Server → Server
stop_all [] w = w
stop_all ((id, a) ∷ d) w = stop_all d (change_session a stop w)

unfoldable pub remove_path_found : Text → Option MediaPath → Server → Server × Bool
remove_path_found p none w = (w, false)
remove_path_found p (some m) w = (stop_all m.sessions (record w { paths = erase p w.paths }), true)

unfoldable pub remove_path : Text → Server → Server × Bool
remove_path p w = remove_path_found p (lookup p w.paths) w

unfoldable pub count_frame : Server → Server
count_frame w = record w { stats = record w.stats { frames_pushed = w.stats.frames_pushed + 1 } }

unfoldable pub push_frame_at : Text → VideoFrame → Option MediaPath → Server → Server × Bool
push_frame_at p frame none w = (w, false)
push_frame_at p frame (some m) w = (count_frame (broadcast_frame p m frame w), true)

-- `RtspServer::pushFrame`.
unfoldable pub push_to_path : Text → VideoFrame → Server → Server × Bool
push_to_path p frame w = push_frame_at p frame (lookup p w.paths) w

-- A session without a sign of life for longer than the timeout, in milliseconds.
unfoldable pub is_expired : ServerConfig → ℕ → ClientSession → Bool
is_expired cfg now s =
    not (s.last_activity == 0) && ltb (cfg.session_timeout_ms * 1_000_000) (now - s.last_activity)

unfoldable pub close_expired : Text → ℕ → Server → Server
close_expired p a w =
    let s = session_at w a in
    record (change_session a stop w) {
      stats = record w.stats { sessions_closed = w.stats.sessions_closed + 1 };
      disconnects = gone s.role w.disconnects s.client_ip;
    }
  where
    gone : Role → List (Text × Text) → Text → List (Text × Text)
    gone player log ip = log ++ ((p, ip) ∷ [])
    gone publisher log ip = log

-- The sessions of a path that stay, and the server without the others.
unfoldable pub expire_in : Text → ℕ → Dict ℕ → Server → Dict ℕ × Server
expire_in p now [] w = ([], w)
expire_in p now ((id, a) ∷ d) w =
    let gone = is_expired w.config now (session_at w a) in
    let (kept, after) = expire_in p now d (if gone then close_expired p a w else w) in
    (if gone then kept else (id, a) ∷ kept, after)

-- A round of `cleanupLoop` over all paths.
unfoldable pub expire_paths : ℕ → Dict MediaPath → Server → Dict MediaPath × Server
expire_paths now [] w = ([], w)
expire_paths now ((p, m) ∷ ms) w =
    let (kept, after) = expire_in p now m.sessions w in
    let (rest, last) = expire_paths now ms after in ((p, record m { sessions = kept }) ∷ rest, last)

unfoldable pub cleanup : ℕ → Server → Server
cleanup now w = let (paths, after) = expire_paths now w.paths w in record after { paths = paths }
