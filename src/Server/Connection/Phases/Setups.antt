-- ===== src/Server/Connection/Phases/Setups.antt =====
-- ANNOUNCE and SETUP of src/server/rtsp_server.cpp against the state machine.
use rtsp_sdk.Common.{
  ℕ, ◌≡◌, refl, sym, ap, ◌∙◌, subst, Option, none, some, [], ◌∷◌, length, length-append, ◌==◌,
  by_test, arith,
}
use rtsp_sdk.Text.Chars.{Text, codes}
use rtsp_sdk.Text.Dict.{lookup}
use rtsp_sdk.Text.Numbers.{ℤ, pos}
use rtsp_sdk.Rtsp.Request.{Request, Method, setup, announce}
use rtsp_sdk.Rtsp.Transport.{get_transport, get_rtp_port}
use rtsp_sdk.Rtsp.Response.{create_setup, create_ok, set_session}
use rtsp_sdk.Rtp.Frame.{VideoFrame, CodecType}
use rtsp_sdk.Server.Config.{PathConfig, ServerConfig}
use rtsp_sdk.Server.Session.{
  ClientSession, Role, player, publisher, push_frame, push_as, new_session,
}
use rtsp_sdk.Server.Paths.{Server, MediaPath, session_at, put_path}
use rtsp_sdk.Server.Paths.Objects.{Has, get_or-last, add_session-keeps, add_session-Has}
use rtsp_sdk.Server.Url.{extract_path}
use rtsp_sdk.Server.Connection.{Env, State, open_session, on_server}
use rtsp_sdk.Server.Connection.Describe.{
  announce_path, announce_with, announced_path, publisher_session, parse_announced,
}
use rtsp_sdk.Server.Connection.Setup.{
  start_player, register_player, player_session, transport_reply, set_config, bound_player,
  player_on_path, player_setup_with, bind_ports, attempts, setup_path, uses_tcp, note_connect,
  count_created,
}
use rtsp_sdk.Server.Connection.Phases.{
  Phase, phase, phase_at, phase_of, phase_from, receiver_phase, Edge, idle, ready, announced,
  set_up, announces, Placed, PlacedAt, Follows,
}
use rtsp_sdk.Server.Connection.Phases.Handlers.{answer-Follows, fails, setup_200, session_200}

-- Pushing a frame leaves the phase.
pushed :
    (role : Role) (s : ClientSession) (frame : VideoFrame)
    → phase_of (push_as role s frame) ≡ phase_of s
unfolding phase_of
pushed player s frame = refl
pushed publisher s frame = refl

pub phase_of-push_frame :
    (p : Phase) (s : ClientSession) (frame : VideoFrame)
    → phase_of s ≡ p
    → phase_of (push_frame s frame) ≡ p
unfolding push_frame
phase_of-push_frame p s frame h = pushed s.role s frame ∙ h

-- A session that was opened is the one of the connection.
session_at-open :
    (s : ClientSession) (st : State)
    → session_at (open_session s st).server (length st.server.objects) ≡ s
unfolding session_at open_session
session_at-open s st = get_or-last st.server.objects s (new_session 0)

Has-open :
    (s : ClientSession) (st : State) → Has (open_session s st).server (length st.server.objects)
unfolding open_session
Has-open s st = let e = length-append st.server.objects (s ∷ []) in omega (arith, e)

-- An edge between phases that are known.
pub between :
    (m : Method) (st after : State) {p q : Phase}
    → phase st ≡ p
    → phase after ≡ q
    → Edge m p (pos 200) q
    → Edge m (phase st) (pos 200) (phase after)
between m st after {p} {q} e f edge =
    subst (λ x. Edge m x (pos 200) (phase after)) (sym e) (subst (Edge m p (pos 200)) (sym f) edge)

idle-phase : (st : State) → st.session ≡ none → phase st ≡ idle
unfolding phase
idle-phase st e = ap (phase_at st.server) e

pub config-Placed :
    (cfg : ServerConfig) (w : Server) (o : Option ℕ)
    → PlacedAt w o
    → PlacedAt (record w { config = cfg }) o
config-Placed cfg w none p = tt
config-Placed cfg w (some a) p = p

module _ (env : Env) (r : Request) (cseq : ℤ) where
  announced-phase :
      (path : Text) (payload_type : ℕ) (st : State)
      → phase (open_session (publisher_session env path payload_type) st) ≡ announced
  unfolding phase open_session publisher_session phase_of phase_from receiver_phase new_session
  announced-phase path payload_type st =
      ap phase_of (session_at-open (publisher_session env path payload_type) st)

  opened-replies : (s : ClientSession) (st : State) → (open_session s st).replies ≡ st.replies
  unfolding open_session
  opened-replies s st = refl

  pub on_server-replies : (f : Server → Server) (st : State) → (on_server f st).replies ≡ st.replies
  unfolding on_server
  on_server-replies f st = refl

  opened-Placed : (s : ClientSession) (st : State) → Placed (open_session s st)
  unfolding open_session
  opened-Placed s st = Has-open s st

  announce_path-Follows :
      (path : Text) (o : Option (PathConfig × ℕ)) (st : State)
      → st.session ≡ none
      → Placed st
      → Follows announce st (announce_path env cseq path o st)
  unfolding announce_path
  announce_path-Follows path none st e p =
      fails env r cseq st p announce 400 (codes "Bad Request") refl
  announce_path-Follows path (some (c, payload_type)) st e p =
      let s = publisher_session env path payload_type in
      let f = put_path path (announced_path c (lookup path st.server.paths)) in
      answer-Follows announce env (set_session env.session_id (create_ok cseq)) st
        (open_session s (on_server f st)) (session_200 cseq env.session_id [])
        (opened-replies s (on_server f st) ∙ on_server-replies f st)
        (between announce st (open_session s (on_server f st)) (idle-phase st e)
          (announced-phase path payload_type (on_server f st)) announces)
        (opened-Placed s (on_server f st))

  pub announce_with-Follows :
      (o : Option ℕ) (st : State)
      → st.session ≡ o
      → Placed st
      → Follows announce st (announce_with o env r cseq st)
  announce_with-Follows (some a) st e p =
      fails env r cseq st p announce 459 (codes "Aggregate Operation Not Allowed") refl
  announce_with-Follows none st e p =
      announce_path-Follows (extract_path r.path) (parse_announced (extract_path r.path) r.body) st
        e p

  player_session-ready :
      (path : Text) (codec : CodecType) (port : Option ℕ)
      → phase_of (player_session env r path codec port) ≡ ready
  unfolding player_session phase_of phase_from new_session
  player_session-ready path codec port = refl

  module _ (path : Text) (m : MediaPath) (port : Option ℕ) (st : State) where
    abbrev its_session : ClientSession
    its_session = player_session env r path m.config.codec port

    abbrev started_player : State
    started_player =
        on_server (register_player env path m (length st.server.objects))
          (open_session its_session st)

    started_player-ready : phase started_player ≡ ready
    unfolding phase on_server open_session register_player note_connect count_created session_at
    started_player-ready =
        let s = its_session in
        add_session-keeps (λ x. phase_of x ≡ ready) (phase_of-push_frame ready) path m
          env.session_id (length st.server.objects) (open_session s st).server (Has-open s st)
          (ap phase_of (session_at-open s st) ∙ player_session-ready path m.config.codec port)

    started_player-Placed : Placed started_player
    unfolding on_server open_session register_player note_connect count_created
    started_player-Placed =
        add_session-Has path m env.session_id (length st.server.objects) (length st.server.objects)
          (open_session its_session st).server (Has-open its_session st)

    start_player-Follows :
        st.session ≡ none → Follows setup st (start_player env r cseq path m port st)
    unfolding start_player
    start_player-Follows e =
        answer-Follows setup env (create_setup cseq env.session_id (transport_reply r port)) st
          started_player (setup_200 cseq env.session_id (transport_reply r port))
          (on_server-replies (register_player env path m (length st.server.objects))
              (open_session its_session st)
            ∙ opened-replies its_session st)
          (between setup st started_player (idle-phase st e) started_player-ready set_up)
          started_player-Placed

  -- The ports that were tried do not matter to the phase.
  pub set_config-Follows :
      (m : Method) (cfg : ServerConfig) (st after : State)
      → Follows m (set_config cfg st) after
      → Follows m st after
  unfolding set_config phase session_at
  set_config-Follows m cfg st after f = f

  pub set_config-Placed : (cfg : ServerConfig) (st : State) → Placed st → Placed (set_config cfg st)
  unfolding set_config
  set_config-Placed cfg st p = config-Placed cfg st.server st.session p

  bound_player-Follows :
      (path : Text) (m : MediaPath) (b : ServerConfig × Option ℕ) (st : State)
      → st.session ≡ none
      → Placed st
      → Follows setup st (bound_player env r cseq path m b st)
  unfolding set_config
  bound_player-Follows path m (cfg, none) st e p = set_config-Follows setup cfg st _ (
      fails env r cseq (set_config cfg st) (set_config-Placed cfg st p) setup 500
        (codes "Internal Server Error") refl)
  bound_player-Follows path m (cfg, some port) st e p =
      set_config-Follows setup cfg st _
        (start_player-Follows path m (some port) (set_config cfg st) e)

  player_on_path-Follows :
      (path : Text) (o : Option MediaPath) (st : State)
      → st.session ≡ none
      → Placed st
      → Follows setup st (player_on_path env r cseq path o st)
  unfolding player_on_path
  player_on_path-Follows path none st e p = fails env r cseq st p setup 404 (codes "Not Found") refl
  player_on_path-Follows path (some m) st e p =
      by_test (Follows setup st) (uses_tcp (get_transport r)) _ _
        (λ y. start_player-Follows path m none st e)
        (λ n.
          by_test (Follows setup st) (get_rtp_port r == 0) _ _
            (λ y. fails env r cseq st p setup 400 (codes "Bad Request") refl)
            (λ k.
              bound_player-Follows path m (bind_ports attempts env.binds st.server.config) st e p))

  pub player_setup_with-Follows :
      (o : Option ℕ) (st : State)
      → st.session ≡ o
      → Placed st
      → Follows setup st (player_setup_with o env r cseq st)
  player_setup_with-Follows (some a) st e p =
      fails env r cseq st p setup 459 (codes "Aggregate Operation Not Allowed") refl
  player_setup_with-Follows none st e p =
      player_on_path-Follows (setup_path r.path) (lookup (setup_path r.path) st.server.paths) st e p
