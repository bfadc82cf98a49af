-- ===== src/Server/Connection/Sound/Steps.antt =====
-- The server of src/server/rtsp_server.cpp as a system: any connections, each request in one step, the
-- calls of the application, and the cleanup, in any order.
use rtsp_sdk.Common.{ℕ, Bool, Option, none, some, List, if_on}
use rtsp_sdk.Text.Chars.{Text}
use rtsp_sdk.Text.Dict.{lookup, erase}
use rtsp_sdk.Rtp.Frame.{VideoFrame, CodecType, h264, h265}
use rtsp_sdk.Rtsp.Request.{Request}
use rtsp_sdk.Server.Config.{PathConfig, default_path_config}
use rtsp_sdk.Server.Api.{add_path_named, set_auth, set_auth_digest}
use rtsp_sdk.Server.Paths.{
  Server, MediaPath, push_to_path, push_frame_at, add_path, remove_path, remove_path_found, cleanup,
  count_frame, put_path, is_absent,
}
use rtsp_sdk.Server.Paths.Extract.{
  push_h264_data, push_h265_data, push_data_at, refresh_h264, refresh_h265, frame_of,
}
use rtsp_sdk.Server.Connection.{Env, State}
use rtsp_sdk.Server.Connection.Requests.{serve, end_connection}
use rtsp_sdk.Server.Connection.Sound.{AllEquipped, broadcast_frame-All, stop_all-All, cleanup-All}
use rtsp_sdk.Server.Connection.Sound.Handled.{serve-All, end_connection-All}

-- One step of the server: a connection in any state serves a request or ends; frames are pushed;
-- paths come and go; the cleanup runs.
infix 40 ◌⟶◌ ◌⟶*◌
pub data ◌⟶◌ : Server → Server → Type 0 where
  serves : (env : Env) (r : Request) (st : State) → st.server ⟶ (serve env r st).server
  ends : (st : State) → st.server ⟶ (end_connection st).server
  pushes : (p : Text) (frame : VideoFrame) (w : Server) → w ⟶ (push_to_path p frame w).0
  pushes_h264 :
      (p : Text) (bytes : List ℕ) (pts : ℕ) (is_key : Bool) (w : Server)
      → w ⟶ (push_h264_data p bytes pts is_key w).0
  pushes_h265 :
      (p : Text) (bytes : List ℕ) (pts : ℕ) (is_key : Bool) (w : Server)
      → w ⟶ (push_h265_data p bytes pts is_key w).0
  adds : (config : PathConfig) (w : Server) → w ⟶ (add_path config w).0
  adds_named : (p : Text) (codec : CodecType) (w : Server) → w ⟶ (add_path_named p codec w).0
  sets_auth : (user pass realm fresh : Text) (w : Server) → w ⟶ set_auth user pass realm fresh w
  sets_digest :
      (user pass realm fresh : Text) (w : Server) → w ⟶ set_auth_digest user pass realm fresh w
  removes : (p : Text) (w : Server) → w ⟶ (remove_path p w).0
  cleans : (now : ℕ) (w : Server) → w ⟶ cleanup now w

pub data ◌⟶*◌ : Server → Server → Type 0 where
  here : {v : Server} → v ⟶* v
  next : {u v w : Server} → u ⟶ v → v ⟶* w → u ⟶* w

push_frame_at-All :
    (p : Text) (frame : VideoFrame) (o : Option MediaPath) (w : Server)
    → AllEquipped w
    → AllEquipped (push_frame_at p frame o w).0
unfolding push_frame_at count_frame
push_frame_at-All p frame none w h = h
push_frame_at-All p frame (some m) w h = broadcast_frame-All p m frame w h

push_data_at-All :
    (refresh : PathConfig → List ℕ → Bool → PathConfig) (codec : CodecType) (p : Text)
    (bytes : List ℕ) (pts : ℕ) (is_key : Bool) (o : Option MediaPath) (w : Server)
    → AllEquipped w
    → AllEquipped (push_data_at refresh codec p bytes pts is_key o w).0
unfolding push_data_at count_frame
push_data_at-All refresh codec p bytes pts is_key none w h = h
push_data_at-All refresh codec p bytes pts is_key (some m) w h =
    broadcast_frame-All p (record m { config = refresh m.config bytes is_key })
      (frame_of codec bytes pts is_key) w h

add_path-All :
    (config : PathConfig) (w : Server) → AllEquipped w → AllEquipped (add_path config w).0
unfolding add_path put_path
add_path-All config w h =
    if_on {A = Server × Bool} (λ x. AllEquipped x.0) (is_absent (lookup config.path w.paths)) _ _ h
      h

remove_path_found-All :
    (p : Text) (o : Option MediaPath) (w : Server)
    → AllEquipped w
    → AllEquipped (remove_path_found p o w).0
unfolding remove_path_found
remove_path_found-All p none w h = h
remove_path_found-All p (some m) w h =
    stop_all-All m.sessions (record w { paths = erase p w.paths }) h

-- One step keeps all sessions equipped.
step-All : (v w : Server) → v ⟶ w → AllEquipped v → AllEquipped w
unfolding push_to_path push_h264_data push_h265_data remove_path add_path_named set_auth
    set_auth_digest
step-All _ _ (serves env r st) h = serve-All env r st h
step-All _ _ (ends st) h = end_connection-All st h
step-All _ _ (pushes p frame w) h = push_frame_at-All p frame (lookup p w.paths) w h
step-All _ _ (pushes_h264 p bytes pts is_key w) h =
    push_data_at-All refresh_h264 h264 p bytes pts is_key (lookup p w.paths) w h
step-All _ _ (pushes_h265 p bytes pts is_key w) h =
    push_data_at-All refresh_h265 h265 p bytes pts is_key (lookup p w.paths) w h
step-All _ _ (adds config w) h = add_path-All config w h
step-All _ _ (adds_named p codec w) h =
    add_path-All (record default_path_config { path = p; codec = codec }) w h
step-All _ _ (sets_auth user pass realm fresh w) h = h
step-All _ _ (sets_digest user pass realm fresh w) h = h
step-All _ _ (removes p w) h = remove_path_found-All p (lookup p w.paths) w h
step-All _ _ (cleans now w) h = cleanup-All now w h

-- From a server whose sessions are equipped (one without sessions, say), any steps lead to servers
-- whose sessions are: no queue is over its size, a player has a packer and a way to send, and a
-- publisher has neither a packer nor frames.
pub reachable-AllEquipped : (v w : Server) → v ⟶* w → AllEquipped v → AllEquipped w
reachable-AllEquipped v w here h = h
reachable-AllEquipped v w (next {v = u} s rest) h =
    reachable-AllEquipped u w rest (step-All v u s h)
