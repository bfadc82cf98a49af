-- ===== src/Server/Connection/Sound/Handled.antt =====
-- Every handler of src/server/rtsp_server.cpp keeps all session objects equipped.
use rtsp_sdk.Common.{ℕ, ◌||◌, Option, none, some, length, ◌==◌, if_on, by_test}
use rtsp_sdk.Text.Chars.{Text, codes, lower}
use rtsp_sdk.Text.Search.{same, is_empty, contains}
use rtsp_sdk.Text.Dict.{lookup}
use rtsp_sdk.Text.Numbers.{ℤ}
use rtsp_sdk.Rtsp.Request.{
  Request, Method, unknown, options, describe, setup, play, pause, teardown, announce, do_record,
  get_parameter, set_parameter, get_session, get_cseq,
}
use rtsp_sdk.Rtsp.Transport.{get_transport, get_rtp_port}
use rtsp_sdk.Server.Config.{PathConfig, ServerConfig}
use rtsp_sdk.Server.Url.{extract_path}
use rtsp_sdk.Server.Session.{ClientSession, Role, player, publisher, PublishReceiver, stop}
use rtsp_sdk.Server.Paths.{Server, MediaPath, session_at, remove_session}
use rtsp_sdk.Server.Auth.{Digest, Verdict, accepted, challenged}
use rtsp_sdk.Server.Connection.{
  Env, State, send_response, send_error, open_session, on_session, on_server,
}
use rtsp_sdk.Server.Connection.Describe.{
  handle_describe, describe_path, handle_announce, announce_with, announce_path, parse_announced,
  publisher_session,
}
use rtsp_sdk.Server.Connection.Setup.{
  start_player, register_player, note_connect, count_created, player_session, bound_player,
  set_config, player_on_path, player_setup_with, bind_ports, attempts, setup_path, uses_tcp,
  set_client_ports, set_receiver, receiver_for, receiver_reply, bound_receiver, receiver_on_path,
  publisher_on_path, publisher_ports, as_publisher, publisher_setup_with, handle_setup,
  handle_player_setup, handle_publisher_setup, is_record_transport, has_publisher,
}
use rtsp_sdk.Server.Connection.Requests.{
  dispatch, handle_play, play_with, start_playing, handle_record, record_with, start_recording,
  can_record, handle_pause, pause_with, handle_parameter, parameter_with, handle_teardown,
  teardown_with, forget_session, close_session, count_closed, note_disconnect, serve, after_verdict,
  judge, reject, count_challenge, set_digest, touch, touch_at, touch_session, count_request,
  end_with, end_connection,
}
use rtsp_sdk.Server.Connection.Sound.{
  Equipped, AllEquipped, stop-Keeps, add_session-All, remove_session-All,
}
use rtsp_sdk.Server.Connection.Sound.Served.{
  Equips, start_playing-Keeps, start_recording-Keeps, touch-Keeps, set_client_ports-Keeps,
  set_receiver-Keeps, publisher_session-Equipped, player_tcp-Equipped, player_udp-Equipped,
  open_session-All, on_session-All,
}
use rtsp_sdk.Rtsp.Response.{Response}
use rtsp_sdk.Server.Connection.Describe.{announced_path}
use rtsp_sdk.Server.Paths.{put_path}

-- Answers change no session.
send_response-All :
    (env : Env) (resp : Response) (st : State) → Equips st → Equips (send_response env resp st)
unfolding send_response
send_response-All env resp st h = h

fails :
    (env : Env) (cseq : ℤ) (code : ℕ) (reason : Text) (st : State)
    → Equips st
    → Equips (send_error env cseq code reason st)
unfolding send_error send_response
fails env cseq code reason st h = h

note_disconnect-All :
    (role : Role) (path ip : Text) (w : Server)
    → AllEquipped w
    → AllEquipped (note_disconnect role path ip w)
note_disconnect-All player path ip w h = h
note_disconnect-All publisher path ip w h = h

module _ (env : Env) (r : Request) (cseq : ℤ) where
  announce_path-All :
      (path : Text) (o : Option (PathConfig × ℕ)) (st : State)
      → Equips st
      → Equips (announce_path env cseq path o st)
  unfolding announce_path send_response on_server put_path
  announce_path-All path none st h = fails env cseq 400 _ st h
  announce_path-All path (some (c, payload_type)) st h =
      open_session-All (publisher_session env path payload_type)
        (on_server (put_path path (announced_path c (lookup path st.server.paths))) st)
        (publisher_session-Equipped env path payload_type) h

  announce_with-All :
      (o : Option ℕ) (st : State) → Equips st → Equips (announce_with o env r cseq st)
  announce_with-All (some a) st h = fails env cseq 459 _ st h
  announce_with-All none st h =
      announce_path-All (extract_path r.path) (parse_announced (extract_path r.path) r.body) st h

  start_player-All :
      (path : Text) (m : MediaPath) (port : Option ℕ) (st : State)
      → Equipped (player_session env r path m.config.codec port)
      → Equips st
      → Equips (start_player env r cseq path m port st)
  unfolding start_player send_response on_server register_player note_connect count_created
  start_player-All path m port st k h =
      let s = player_session env r path m.config.codec port in
      add_session-All path m env.session_id (length st.server.objects) (open_session s st).server
        (open_session-All s st k h)

  bound_player-All :
      (path : Text) (m : MediaPath) (b : ServerConfig × Option ℕ) (st : State)
      → Equips st
      → Equips (bound_player env r cseq path m b st)
  unfolding set_config
  bound_player-All path m (cfg, none) st h = fails env cseq 500 _ (set_config cfg st) h
  bound_player-All path m (cfg, some port) st h =
      start_player-All path m (some port) (set_config cfg st)
        (player_udp-Equipped env r path m.config.codec port) h

  player_on_path-All :
      (path : Text) (o : Option MediaPath) (st : State)
      → Equips st
      → Equips (player_on_path env r cseq path o st)
  unfolding player_on_path
  player_on_path-All path none st h = fails env cseq 404 _ st h
  player_on_path-All path (some m) st h =
      by_test Equips (uses_tcp (get_transport r)) _ _
        (λ y. start_player-All path m none st (player_tcp-Equipped env r path m.config.codec y) h)
        (λ n.
          if_on Equips (get_rtp_port r == 0) _ _ (fails env cseq 400 _ st h)
            (bound_player-All path m (bind_ports attempts env.binds st.server.config) st h))

  player_setup_with-All :
      (o : Option ℕ) (st : State) → Equips st → Equips (player_setup_with o env r cseq st)
  player_setup_with-All (some a) st h = fails env cseq 459 _ st h
  player_setup_with-All none st h =
      player_on_path-All (setup_path r.path) (lookup (setup_path r.path) st.server.paths) st h

  bound_receiver-All :
      (a : ℕ) (s : ClientSession) (m : MediaPath) (b : ServerConfig × Option ℕ) (st : State)
      → Equips st
      → Equips (bound_receiver env r cseq a s m b st)
  unfolding set_config receiver_reply send_response on_server count_created
  bound_receiver-All a s m (cfg, none) st h = fails env cseq 500 _ (set_config cfg st) h
  bound_receiver-All a s m (cfg, some port) st h =
      let v = receiver_for m s port in
      add_session-All s.path m s.session_id a
        (on_session a (set_receiver v) (set_config cfg st)).server
        (on_session-All a (set_receiver v) (set_config cfg st) (set_receiver-Keeps v) h)

  receiver_on_path-All :
      (o : Option PublishReceiver) (a : ℕ) (s : ClientSession) (m : MediaPath) (st : State)
      → Equips st
      → Equips (receiver_on_path o env r cseq a s m st)
  unfolding receiver_reply send_response
  receiver_on_path-All (some v) a s m st h = h
  receiver_on_path-All none a s m st h =
      bound_receiver-All a s m (bind_ports attempts env.binds st.server.config) st h

  publisher_on_path-All :
      (o : Option MediaPath) (a : ℕ) (s : ClientSession) (st : State)
      → Equips st
      → Equips (publisher_on_path o env r cseq a s st)
  publisher_on_path-All none a s st h = fails env cseq 404 _ st h
  publisher_on_path-All (some m) a s st h =
      receiver_on_path-All s.rtp_receiver a s m (on_session a (set_client_ports r) st)
        (on_session-All a (set_client_ports r) st (set_client_ports-Keeps r) h)

  as_publisher-All :
      (role : Role) (a : ℕ) (s : ClientSession) (st : State)
      → Equips st
      → Equips (as_publisher role env r cseq a s st)
  unfolding publisher_ports
  as_publisher-All player a s st h = fails env cseq 455 _ st h
  as_publisher-All publisher a s st h =
      if_on Equips (contains (codes "tcp") (lower (get_transport r))) _ _
        (fails env cseq 461 _ st h)
        (if_on Equips (get_rtp_port r == 0) _ _ (fails env cseq 400 _ st h)
          (publisher_on_path-All (lookup s.path st.server.paths) a s st h))

  publisher_setup_with-All :
      (o : Option ℕ) (st : State) → Equips st → Equips (publisher_setup_with o env r cseq st)
  publisher_setup_with-All none st h = fails env cseq 455 _ st h
  publisher_setup_with-All (some a) st h =
      as_publisher-All (session_at st.server a).role a (session_at st.server a) st h

  play_with-All : (o : Option ℕ) (st : State) → Equips st → Equips (play_with o env r cseq st)
  unfolding send_response
  play_with-All none st h = fails env cseq 455 _ st h
  play_with-All (some a) st h =
      if_on Equips (same (get_session r) (session_at st.server a).session_id) _ _
        (on_session-All a start_playing st start_playing-Keeps h) (fails env cseq 454 _ st h)

  record_with-All : (o : Option ℕ) (st : State) → Equips st → Equips (record_with o env r cseq st)
  unfolding send_response
  record_with-All none st h = fails env cseq 455 _ st h
  record_with-All (some a) st h =
      let s = session_at st.server a in
      if_on Equips (can_record s.role s.rtp_receiver) _ _
        (if_on Equips (is_empty (get_session r) || same (get_session r) s.session_id) _ _
          (on_session-All a (start_recording env.now) st (start_recording-Keeps env.now) h)
          (fails env cseq 454 _ st h))
        (fails env cseq 455 _ st h)

  pause_with-All : (o : Option ℕ) (st : State) → Equips st → Equips (pause_with o env cseq st)
  unfolding send_response
  pause_with-All none st h = fails env cseq 455 _ st h
  pause_with-All (some a) st h = on_session-All a stop st stop-Keeps h

  parameter_with-All :
      (o : Option ℕ) (st : State) → Equips st → Equips (parameter_with o env r cseq st)
  unfolding send_response
  parameter_with-All none st h = fails env cseq 454 _ st h
  parameter_with-All (some a) st h =
      if_on Equips
        (is_empty (get_session r) || same (get_session r) (session_at st.server a).session_id) _ _ h
        (fails env cseq 454 _ st h)

  teardown_with-All : (o : Option ℕ) (st : State) → Equips st → Equips (teardown_with o env cseq st)
  unfolding send_response forget_session on_server close_session count_closed
  teardown_with-All none st h = h
  teardown_with-All (some a) st h =
      let s = session_at st.server a in
      note_disconnect-All s.role s.path s.client_ip
        (count_closed (remove_session s.path s.session_id st.server))
        (remove_session-All s.path s.session_id st.server h)

  describe_path-All :
      (o : Option MediaPath) (st : State) → Equips st → Equips (describe_path env r cseq o st)
  unfolding describe_path send_response
  describe_path-All none st h = fails env cseq 404 _ st h
  describe_path-All (some m) st h = h

  dispatch-All : (m : Method) (st : State) → Equips st → Equips (dispatch m env r cseq st)
  unfolding dispatch handle_describe handle_announce handle_play handle_record handle_pause
      handle_parameter handle_teardown handle_setup handle_publisher_setup handle_player_setup
      send_response
  dispatch-All options st h = h
  dispatch-All describe st h = describe_path-All (lookup (extract_path r.path) st.server.paths) st h
  dispatch-All announce st h = announce_with-All st.session st h
  dispatch-All setup st h =
      if_on Equips (is_record_transport (get_transport r) || has_publisher st.server st.session) _ _
        (publisher_setup_with-All st.session st h) (player_setup_with-All st.session st h)
  dispatch-All play st h = play_with-All st.session st h
  dispatch-All do_record st h = record_with-All st.session st h
  dispatch-All pause st h = pause_with-All st.session st h
  dispatch-All get_parameter st h = parameter_with-All st.session st h
  dispatch-All set_parameter st h = parameter_with-All st.session st h
  dispatch-All teardown st h = teardown_with-All st.session st h
  dispatch-All unknown st h = fails env cseq 501 _ st h

module _ (env : Env) (r : Request) where
  touch_at-All : (o : Option ℕ) (st : State) → Equips st → Equips (touch_at o env st)
  touch_at-All none st h = h
  touch_at-All (some a) st h = on_session-All a (touch env.now) st (touch-Keeps env.now) h

  verdict-All : (v : Digest × Verdict) (st : State) → Equips st → Equips (after_verdict env r v st)
  unfolding set_digest touch_session reject on_server count_challenge send_response
  verdict-All (d, challenged is_digest stale) st h = h
  verdict-All (d, accepted) st h =
      dispatch-All env r (get_cseq r) r.method (touch_session env (set_digest d st))
        (touch_at-All st.session (set_digest d st) h)

  pub serve-All : (st : State) → Equips st → Equips (serve env r st)
  unfolding serve on_server count_request
  serve-All st h =
      let counted = on_server count_request st in verdict-All (judge env r counted) counted h

end_with-All : (o : Option ℕ) (st : State) → Equips st → Equips (end_with o st)
unfolding on_server
end_with-All none st h = h
end_with-All (some a) st h =
    let s = session_at st.server a in
    note_disconnect-All s.role s.path s.client_ip (remove_session s.path s.session_id st.server)
      (remove_session-All s.path s.session_id st.server h)

pub end_connection-All : (st : State) → Equips st → Equips (end_connection st)
unfolding end_connection
end_connection-All st h = end_with-All st.session st h
