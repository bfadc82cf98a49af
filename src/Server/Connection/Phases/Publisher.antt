-- ===== src/Server/Connection/Phases/Publisher.antt =====
-- `handlePublisherSetup` of src/server/rtsp_server.cpp against the state machine.
use rtsp_sdk.Common.{
  ℕ, ◌≡◌, refl, sym, ap, ◌∙◌, subst, Bool, ◌||◌, Option, none, some, ◌==◌, by_test, Bool-cases, inl,
  inr,
}
use rtsp_sdk.Text.Chars.{codes, lower}
use rtsp_sdk.Text.Search.{contains}
use rtsp_sdk.Text.Dict.{lookup}
use rtsp_sdk.Text.Numbers.{ℤ, pos}
use rtsp_sdk.Rtsp.Request.{Request, Method, setup}
use rtsp_sdk.Rtsp.Transport.{get_transport, get_rtp_port, get_rtcp_port}
use rtsp_sdk.Rtsp.Response.{create_setup}
use rtsp_sdk.Server.Config.{ServerConfig}
use rtsp_sdk.Server.Session.{ClientSession, Role, player, publisher, PublishReceiver}
use rtsp_sdk.Server.Paths.{MediaPath, session_at, add_session}
use rtsp_sdk.Server.Paths.Objects.{
  Has, Has-change, session_at-change, add_session-keeps, add_session-Has,
}
use rtsp_sdk.Server.Connection.{Env, State, on_session, on_server}
use rtsp_sdk.Server.Connection.Setup.{
  bind_ports, attempts, count_created, set_client_ports, receiver_for, set_receiver, receiver_reply,
  bound_receiver, receiver_on_path, publisher_on_path, publisher_ports, as_publisher,
  publisher_setup_with, handle_setup, handle_player_setup, handle_publisher_setup, udp_transport,
  rtcp_or_next, is_record_transport, has_publisher, set_config,
}
use rtsp_sdk.Server.Connection.Phases.{
  phase, phase_at, phase_of, phase_from, receiver_phase, Edge, announced, prepared, set_up_receiver,
  set_up_again, set_up_running, Placed, PlacedAt, Follows,
}
use rtsp_sdk.Server.Connection.Phases.Handlers.{
  answer-Follows, fails, has, setup_200, on_session-Placed, on_session-phase,
}
use rtsp_sdk.Server.Connection.Phases.Setups.{
  between, phase_of-push_frame, set_config-Follows, set_config-Placed, player_setup_with-Follows,
}

-- A receiver that stays.
receiver-Edge :
    (b : Bool) (v : PublishReceiver)
    → Edge setup (phase_from publisher b (some v)) (pos 200) (phase_from publisher b (some v))
unfolding phase_from receiver_phase
receiver-Edge b v = elim (Bool-cases v.running) [
  | inl y ↦ rw y set_up_running
  | inr n ↦ rw n set_up_again
]

module _ (env : Env) (r : Request) (cseq : ℤ) where
  module _ (st : State) (a : ℕ) (e : st.session ≡ some a) (p : Placed st)
      (is_pub : (session_at st.server a).role ≡ publisher) where
    abbrev s : ClientSession
    s = session_at st.server a

    abbrev ported : State
    ported = on_session a (set_client_ports r) st

    phase-s : phase st ≡ phase_of s
    unfolding phase
    phase-s = ap (phase_at st.server) e

    ported-phase : phase ported ≡ phase st
    unfolding set_client_ports phase_of
    ported-phase =
        on_session-phase env r cseq st a (set_client_ports r) e (has env r cseq st p a e)
        ∙ sym phase-s

    ported-Placed : Placed ported
    ported-Placed =
        on_session-Placed env r cseq st a (set_client_ports r) e (has env r cseq st p a e)

    -- What follows from the state with the ports follows from the one before.
    from_ported : (m : Method) (after : State) → Follows m ported after → Follows m st after
    unfolding on_session
    from_ported m after (resp, replies, edge, placed) = (
      resp,
      replies,
      subst (λ x. Edge m x resp.status_code (phase after)) ported-phase edge,
      placed,
    )

    kept-Follows :
        (v : PublishReceiver)
        → s.rtp_receiver ≡ some v
        → Follows setup ported (receiver_reply env r cseq s v ported)
    unfolding receiver_reply phase_of
    kept-Follows v h =
        let t =
          udp_transport (get_rtp_port r) (rtcp_or_next (get_rtp_port r) (get_rtcp_port r))
            v.rtp_port v.rtcp_port in
        let here : phase ported ≡ phase_from publisher s.playing (some v) =
          ported-phase
          ∙ (phase-s
              ∙ (ap (λ x. phase_from x s.playing s.rtp_receiver) is_pub
                  ∙ ap (phase_from publisher s.playing) h)) in
        answer-Follows setup env (create_setup cseq s.session_id t) ported ported
          (setup_200 cseq s.session_id t) refl
          (between setup ported ported here here (receiver-Edge s.playing v)) ported-Placed

    module _ (m : MediaPath) (cfg : ServerConfig) (port : ℕ)
        (none_yet : s.rtp_receiver ≡ none) where
      abbrev v : PublishReceiver
      v = receiver_for m s port

      abbrev configured : State
      configured = set_config cfg ported

      abbrev bound : State
      bound =
          on_server (λ w. count_created (add_session s.path m s.session_id a w))
            (on_session a (set_receiver v) configured)

      configured-Has : Has configured.server a
      unfolding set_config on_session
      configured-Has = Has-change st.server a a (set_client_ports r) (has env r cseq st p a e)

      configured_session : session_at configured.server a ≡ set_client_ports r s
      unfolding set_config on_session session_at
      configured_session =
          session_at-change st.server a (set_client_ports r) (has env r cseq st p a e)

      fresh-prepared : phase_of (set_receiver v (set_client_ports r s)) ≡ prepared
      unfolding phase_of set_receiver set_client_ports receiver_for phase_from receiver_phase
      fresh-prepared = ap (λ x. phase_from x s.playing (some v)) is_pub

      with_receiver :
          phase_of (session_at (on_session a (set_receiver v) configured).server a) ≡ prepared
      unfolding on_session
      with_receiver =
          ap phase_of (session_at-change configured.server a (set_receiver v) configured-Has)
          ∙ (ap (λ x. phase_of (set_receiver v x)) configured_session ∙ fresh-prepared)

      with_receiver-Has : Has (on_session a (set_receiver v) configured).server a
      unfolding on_session
      with_receiver-Has = Has-change configured.server a a (set_receiver v) configured-Has

      bound-phase : phase bound ≡ prepared
      unfolding phase on_server on_session set_config count_created session_at
      bound-phase =
          ap (phase_at bound.server) e
          ∙ add_session-keeps (λ x. phase_of x ≡ prepared) (phase_of-push_frame prepared) s.path m
              s.session_id a (on_session a (set_receiver v) configured).server with_receiver-Has
              with_receiver

      bound-Placed : Placed bound
      unfolding on_server on_session set_config count_created
      bound-Placed = subst (PlacedAt bound.server) (sym e) (
          add_session-Has s.path m s.session_id a a
            (on_session a (set_receiver v) configured).server with_receiver-Has)

      ported-announced : phase ported ≡ announced
      unfolding phase_of phase_from receiver_phase
      ported-announced =
          ported-phase
          ∙ (phase-s
              ∙ (ap (λ x. phase_from x s.playing s.rtp_receiver) is_pub
                  ∙ ap (phase_from publisher s.playing) none_yet))

      bound-replies : bound.replies ≡ ported.replies
      unfolding on_server on_session set_config
      bound-replies = refl

      bound-Follows : Follows setup ported (receiver_reply env r cseq s v bound)
      unfolding receiver_reply
      bound-Follows =
          let t =
            udp_transport (get_rtp_port r) (rtcp_or_next (get_rtp_port r) (get_rtcp_port r))
              v.rtp_port v.rtcp_port in
          answer-Follows setup env (create_setup cseq s.session_id t) ported bound
            (setup_200 cseq s.session_id t) bound-replies
            (between setup ported bound ported-announced bound-phase set_up_receiver) bound-Placed

    bound_receiver-Follows :
        (m : MediaPath) (b : ServerConfig × Option ℕ)
        → s.rtp_receiver ≡ none
        → Follows setup ported (bound_receiver env r cseq a s m b ported)
    bound_receiver-Follows m (cfg, none) h = set_config-Follows env r cseq setup cfg ported _ (
        fails env r cseq (set_config cfg ported)
          (set_config-Placed env r cseq cfg ported ported-Placed) setup 500
          (codes "Internal Server Error") refl)
    bound_receiver-Follows m (cfg, some port) h = bound-Follows m cfg port h

    receiver_on_path-Follows :
        (o : Option PublishReceiver) (m : MediaPath)
        → s.rtp_receiver ≡ o
        → Follows setup ported (receiver_on_path o env r cseq a s m ported)
    receiver_on_path-Follows (some v) m h = kept-Follows v h
    receiver_on_path-Follows none m h =
        bound_receiver-Follows m (bind_ports attempts env.binds ported.server.config) h

    publisher_on_path-Follows :
        (o : Option MediaPath) → Follows setup st (publisher_on_path o env r cseq a s st)
    publisher_on_path-Follows none = fails env r cseq st p setup 404 (codes "Not Found") refl
    publisher_on_path-Follows (some m) =
        from_ported setup _ (receiver_on_path-Follows s.rtp_receiver m refl)

    publisher_ports-Follows : Follows setup st (publisher_ports env r cseq a s st)
    unfolding publisher_ports
    publisher_ports-Follows =
        by_test (Follows setup st) (contains (codes "tcp") (lower (get_transport r))) _ _
          (λ y. fails env r cseq st p setup 461 (codes "Unsupported Transport") refl)
          (λ n.
            by_test (Follows setup st) (get_rtp_port r == 0) _ _
              (λ y. fails env r cseq st p setup 400 (codes "Bad Request") refl)
              (λ k. publisher_on_path-Follows (lookup s.path st.server.paths)))

  as_publisher-Follows :
      (role : Role) (st : State) (a : ℕ)
      → st.session ≡ some a
      → Placed st
      → (session_at st.server a).role ≡ role
      → Follows setup st (as_publisher role env r cseq a (session_at st.server a) st)
  as_publisher-Follows player st a e p h =
      fails env r cseq st p setup 455 (codes "Method Not Valid In This State") refl
  as_publisher-Follows publisher st a e p h = publisher_ports-Follows st a e p h

  publisher_setup_with-Follows :
      (o : Option ℕ) (st : State)
      → st.session ≡ o
      → Placed st
      → Follows setup st (publisher_setup_with o env r cseq st)
  publisher_setup_with-Follows none st e p =
      fails env r cseq st p setup 455 (codes "Method Not Valid In This State") refl
  publisher_setup_with-Follows (some a) st e p =
      as_publisher-Follows (session_at st.server a).role st a e p refl

  pub handle_setup-Follows :
      (st : State) → Placed st → Follows setup st (handle_setup env r cseq st)
  unfolding handle_setup handle_publisher_setup handle_player_setup
  handle_setup-Follows st p =
      by_test (Follows setup st)
        (is_record_transport (get_transport r) || has_publisher st.server st.session) _ _
        (λ y. publisher_setup_with-Follows st.session st refl p)
        (λ n. player_setup_with-Follows env r cseq st.session st refl p)
