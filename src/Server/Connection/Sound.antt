-- ===== src/Server/Connection/Sound.antt =====
-- What every session object of the server keeps, whatever the connections, the pushes and the cleanup
-- of src/server/rtsp_server.cpp do.
pub mod Served
pub mod Handled
pub mod Steps
use rtsp_sdk.Common.{
  ℕ, zero, suc, ◌+◌, ◌≤◌, ◌≡◌, ◌≢◌, refl, ap, subst, sym, Bool, true, ◌⊎◌, inl, inr, Option, none,
  some, List, [], ◌∷◌, ◌++◌, length, length-append, All, arith, Bool-cases, drop, length-drop, leb,
  if_on,
}
use rtsp_sdk.Text.Chars.{Text}
use rtsp_sdk.Text.Dict.{Dict, lookup, put}
use rtsp_sdk.Rtp.Frame.{VideoFrame}
use rtsp_sdk.Server.Session.{
  ClientSession, Role, player, publisher, push_frame, push_as, stop, drop_oldest, max_queue_size,
}
use rtsp_sdk.Server.Paths.{
  Server, MediaPath, update, change_session, session_at, push_to_all, push_if_playing,
  broadcast_frame, push_cached, add_session, remove_session, remove_session_in, remove_found,
  stop_all, is_idr, put_path, expire_in, expire_paths, cleanup, close_expired, is_expired,
}

-- A player has a packer and a way to send what it gives; a publisher has neither, nor frames.
abbrev pub EquippedAs : Role → ClientSession → Type 0
EquippedAs player s =
    (s.rtp_packer ≢ none) × ((s.use_tcp_interleaved ≡ true) ⊎ (s.rtp_sender ≢ none))
EquippedAs publisher s = (s.rtp_packer ≡ none) × (s.frame_queue ≡ [])

-- And no more frames wait than the queue may hold.
abbrev pub Equipped : ClientSession → Type 0
Equipped s = (length s.frame_queue ≤ max_queue_size) × EquippedAs s.role s

abbrev pub AllEquipped : Server → Type 0
AllEquipped w = All Equipped w.objects

-- A change that keeps sessions equipped.
abbrev pub Keeps : (ClientSession → ClientSession) → Type 0
Keeps f = (s : ClientSession) → Equipped s → Equipped (f s)

pub update-All :
    (a : ℕ) (f : ClientSession → ClientSession) (xs : List ClientSession)
    → Keeps f
    → All Equipped xs
    → All Equipped (update a f xs)
unfolding update
update-All a f [] k h = tt
update-All zero f (x ∷ xs) k h = (k x h.0, h.1)
update-All (suc a) f (x ∷ xs) k h = (h.0, update-All a f xs k h.1)

pub change_session-All :
    (a : ℕ) (f : ClientSession → ClientSession) (w : Server)
    → Keeps f
    → AllEquipped w
    → AllEquipped (change_session a f w)
unfolding change_session
change_session-All a f w k h = update-All a f w.objects k h

queue_room :
    (queue : List VideoFrame) (frame : VideoFrame)
    → length queue ≤ max_queue_size
    → length (drop_oldest queue ++ (frame ∷ [])) ≤ max_queue_size
unfolding drop_oldest
queue_room queue frame h = elim (Bool-cases (leb 30 (length queue))) [
  | inl full ↦
      let e = length-append (drop 1 queue) (frame ∷ []) in
      let d = length-drop 1 queue in rw full (ground arith)
  | inr room ↦ let e = length-append queue (frame ∷ []) in rw room (ground arith)
]

push_as-Equipped :
    (role : Role) (s : ClientSession) (frame : VideoFrame)
    → s.role ≡ role
    → Equipped s
    → Equipped (push_as role s frame)
push_as-Equipped player s frame e h = (
  queue_room s.frame_queue frame h.0,
  subst (λ x. EquippedAs x (push_as player s frame)) (sym e) (subst (λ x. EquippedAs x s) e h.1),
)
push_as-Equipped publisher s frame e h = h

pub push_frame-Keeps : (frame : VideoFrame) → Keeps (λ s. push_frame s frame)
unfolding push_frame
push_frame-Keeps frame s h = push_as-Equipped s.role s frame refl h

stopped : (role : Role) (s : ClientSession) → EquippedAs role s → EquippedAs role (stop s)
unfolding stop
stopped player s h = h
stopped publisher s h = (h.0, refl)

pub stop-Keeps : Keeps stop
unfolding stop
stop-Keeps s h = (omega arith, stopped s.role s h.1)

-- Pushing to all sessions of a path, stopping them, and putting one there.
push_if_playing-Keeps : (frame : VideoFrame) → Keeps (push_if_playing frame)
unfolding push_if_playing
push_if_playing-Keeps frame s h =
    if_on Equipped s.playing (push_frame s frame) s (push_frame-Keeps frame s h) h

pub push_to_all-All :
    (frame : VideoFrame) (d : Dict ℕ) (w : Server)
    → AllEquipped w
    → AllEquipped (push_to_all frame d w)
unfolding push_to_all
push_to_all-All frame [] w h = h
push_to_all-All frame ((id, a) ∷ d) w h =
    push_to_all-All frame d (change_session a (push_if_playing frame) w)
      (change_session-All a (push_if_playing frame) w (push_if_playing-Keeps frame) h)

pub stop_all-All : (d : Dict ℕ) (w : Server) → AllEquipped w → AllEquipped (stop_all d w)
unfolding stop_all
stop_all-All [] w h = h
stop_all-All ((id, a) ∷ d) w h =
    stop_all-All d (change_session a stop w) (change_session-All a stop w stop-Keeps h)

pub broadcast_frame-All :
    (p : Text) (m : MediaPath) (frame : VideoFrame) (w : Server)
    → AllEquipped w
    → AllEquipped (broadcast_frame p m frame w)
unfolding broadcast_frame put_path
broadcast_frame-All p m frame w h =
    push_to_all-All frame m.sessions (put_path p (record m { latest_frame = some frame }) w) h

push_cached-All :
    (o : Option VideoFrame) (a : ℕ) (w : Server) → AllEquipped w → AllEquipped (push_cached o a w)
unfolding push_cached
push_cached-All none a w h = h
push_cached-All (some frame) a w h =
    if_on AllEquipped (is_idr frame.frame_type) _ w
      (change_session-All a (λ s. push_frame s frame) w (push_frame-Keeps frame) h) h

pub add_session-All :
    (p : Text) (m : MediaPath) (id : Text) (a : ℕ) (w : Server)
    → AllEquipped w
    → AllEquipped (add_session p m id a w)
unfolding add_session put_path
add_session-All p m id a w h =
    push_cached-All m.latest_frame a (put_path p (record m { sessions = put id a m.sessions }) w) h

remove_found-All :
    (p : Text) (m : MediaPath) (id : Text) (o : Option ℕ) (w : Server)
    → AllEquipped w
    → AllEquipped (remove_found p m id o w)
unfolding remove_found put_path
remove_found-All p m id none w h = h
remove_found-All p m id (some a) w h = change_session-All a stop w stop-Keeps h

remove_session_in-All :
    (p : Text) (o : Option MediaPath) (id : Text) (w : Server)
    → AllEquipped w
    → AllEquipped (remove_session_in p o id w)
unfolding remove_session_in
remove_session_in-All p none id w h = h
remove_session_in-All p (some m) id w h = remove_found-All p m id (lookup id m.sessions) w h

pub remove_session-All :
    (p id : Text) (w : Server) → AllEquipped w → AllEquipped (remove_session p id w)
unfolding remove_session
remove_session-All p id w h = remove_session_in-All p (lookup p w.paths) id w h

-- A round of the cleanup.
close_expired-All :
    (p : Text) (a : ℕ) (w : Server) → AllEquipped w → AllEquipped (close_expired p a w)
unfolding close_expired
close_expired-All p a w h = change_session-All a stop w stop-Keeps h

expire_in-All :
    (p : Text) (now : ℕ) (d : Dict ℕ) (w : Server)
    → AllEquipped w
    → AllEquipped (expire_in p now d w).1
unfolding expire_in
expire_in-All p now [] w h = h
expire_in-All p now ((id, a) ∷ d) w h = expire_in-All p now d _ (
    if_on AllEquipped (is_expired w.config now (session_at w a)) (close_expired p a w) w
      (close_expired-All p a w h) h)

expire_paths-All :
    (now : ℕ) (ms : Dict MediaPath) (w : Server)
    → AllEquipped w
    → AllEquipped (expire_paths now ms w).1
unfolding expire_paths
expire_paths-All now [] w h = h
expire_paths-All now ((p, m) ∷ ms) w h =
    expire_paths-All now ms (expire_in p now m.sessions w).1 (expire_in-All p now m.sessions w h)

pub cleanup-All : (now : ℕ) (w : Server) → AllEquipped w → AllEquipped (cleanup now w)
unfolding cleanup
cleanup-All now w h = expire_paths-All now w.paths w h
