-- ===== src/Server/Connection/Requests.antt =====
-- The other handlers, `checkAuthorization`, `processRequest` and the end of `handle` in
-- src/server/rtsp_server.cpp.
use rtsp_sdk.Common.{
  ℕ, ◌+◌, Bool, true, false, not, ◌||◌, Option, none, some, [], ◌∷◌, ◌++◌, if◌then◌else◌,
}
use rtsp_sdk.Text.Chars.{Text, codes}
use rtsp_sdk.Text.Search.{same, is_empty}
use rtsp_sdk.Text.Numbers.{ℤ, pos}
use rtsp_sdk.Rtsp.Request.{
  Request, Method, unknown, options, describe, setup, play, pause, teardown, announce, do_record,
  get_parameter, set_parameter, new_request, parse, get_cseq, get_header, get_session,
}
use rtsp_sdk.Rtsp.Response.{
  create_ok, create_options, create_play, create_teardown, set_session, set_status, set_header,
  new_response,
}
use rtsp_sdk.Server.Config.{ServerConfig}
use rtsp_sdk.Server.Session.{
  ClientSession, Role, player, publisher, PublishReceiver, start_receiver, stop, map_receiver,
}
use rtsp_sdk.Server.Paths.{Server, session_at, remove_session}
use rtsp_sdk.Server.Auth.{Digest, Verdict, accepted, challenged, check_digest, check_basic}
use rtsp_sdk.Server.Connection.{
  Env, State, send_response, send_error, not_valid, no_session, on_session, on_server,
}
use rtsp_sdk.Server.Connection.Describe.{handle_describe, handle_announce}
use rtsp_sdk.Server.Connection.Setup.{handle_setup}

-- Playing already, nothing changes; otherwise the send loop is started unless there is one.
unfoldable pub start_playing : ClientSession → ClientSession
start_playing s = if s.playing then s else record s { playing = true; sending = true }

abbrev pub play_with : Option ℕ → Env → Request → ℤ → State → State
play_with none env r cseq st = not_valid env cseq st
play_with (some a) env r cseq st =
    let s = session_at st.server a in
    if same (get_session r) s.session_id
    then send_response env (create_play cseq s.session_id) (on_session a start_playing st)
    else no_session env cseq st

unfoldable pub handle_play : Env → Request → ℤ → State → State
handle_play env r cseq st = play_with st.session env r cseq st

unfoldable pub touch : ℕ → ClientSession → ClientSession
touch now s = record s { last_activity = now }

unfoldable pub start_recording : ℕ → ClientSession → ClientSession
start_recording now s = record s {
  rtp_receiver = map_receiver start_receiver s.rtp_receiver;
  last_activity = now;
}

abbrev pub can_record : Role → Option PublishReceiver → Bool
can_record publisher (some v) = true
can_record _ _ = false

abbrev pub record_with : Option ℕ → Env → Request → ℤ → State → State
record_with none env r cseq st = not_valid env cseq st
record_with (some a) env r cseq st =
    let s = session_at st.server a in
    if can_record s.role s.rtp_receiver
    then (if is_empty (get_session r) || same (get_session r) s.session_id
        then send_response env (set_session s.session_id (create_ok cseq))
            (on_session a (start_recording env.now) st)
        else no_session env cseq st)
    else not_valid env cseq st

unfoldable pub handle_record : Env → Request → ℤ → State → State
handle_record env r cseq st = record_with st.session env r cseq st

abbrev pub pause_with : Option ℕ → Env → ℤ → State → State
pause_with none env cseq st = not_valid env cseq st
pause_with (some a) env cseq st = send_response env (create_ok cseq) (on_session a stop st)

unfoldable pub handle_pause : Env → ℤ → State → State
handle_pause env cseq st = pause_with st.session env cseq st

-- `handleGetParameter` and `handleSetParameter`.
abbrev pub parameter_with : Option ℕ → Env → Request → ℤ → State → State
parameter_with none env r cseq st = no_session env cseq st
parameter_with (some a) env r cseq st =
    if is_empty (get_session r) || same (get_session r) (session_at st.server a).session_id
    then send_response env (create_ok cseq) st
    else no_session env cseq st

unfoldable pub handle_parameter : Env → Request → ℤ → State → State
handle_parameter env r cseq st = parameter_with st.session env r cseq st

unfoldable pub count_closed : Server → Server
count_closed w = record w {
  stats = record w.stats { sessions_closed = w.stats.sessions_closed + 1 };
}

abbrev pub note_disconnect : Role → Text → Text → Server → Server
note_disconnect publisher path ip w = w
note_disconnect player path ip w = record w { disconnects = w.disconnects ++ ((path, ip) ∷ []) }

unfoldable pub close_session : ClientSession → Server → Server
close_session s w =
    note_disconnect s.role s.path s.client_ip (count_closed (remove_session s.path s.session_id w))

unfoldable pub forget_session : State → State
forget_session st = record st { session = none }

abbrev pub teardown_with : Option ℕ → Env → ℤ → State → State
teardown_with none env cseq st = send_response env (create_teardown cseq) st
teardown_with (some a) env cseq st =
    send_response env (create_teardown cseq)
      (forget_session (on_server (close_session (session_at st.server a)) st))

unfoldable pub handle_teardown : Env → ℤ → State → State
handle_teardown env cseq st = teardown_with st.session env cseq st

unfoldable pub count_challenge : Server → Server
count_challenge w = record w {
  stats = record w.stats {
    auth_challenges = w.stats.auth_challenges + 1;
    auth_failures = w.stats.auth_failures + 1;
  };
}

unfoldable pub challenge_text : ServerConfig → Text → Bool → Bool → Text
challenge_text cfg nonce true stale =
    codes "Digest realm=\""
    ++ (cfg.auth_realm
        ++ (codes "\", nonce=\""
            ++ (nonce
                ++ (codes "\", algorithm=MD5, qop=\"auth\""
                    ++ (if stale then codes ", stale=true" else [])))))
challenge_text cfg nonce false stale = codes "Basic realm=\"" ++ (cfg.auth_realm ++ codes "\"")

unfoldable pub reject : Env → ℤ → Bool → Bool → State → State
reject env cseq is_digest stale st =
    send_response env
      (set_header (codes "WWW-Authenticate")
        (challenge_text st.server.config st.digest.nonce is_digest stale)
        (set_status (pos 401) (codes "Unauthorized") (new_response cseq)))
      (on_server count_challenge st)

abbrev pub is_options : Method → Bool
is_options options = true
is_options _ = false

unfoldable pub judge : Env → Request → State → Digest × Verdict
judge env r st =
    let cfg = st.server.config in
    let auth = get_header r (codes "Authorization") in
    if not cfg.auth_enabled || is_options r.method
    then (st.digest, accepted)
    else if cfg.auth_use_digest
    then check_digest cfg env.now env.nonce r.method auth st.digest
    else (st.digest, check_basic cfg auth)

abbrev pub touch_at : Option ℕ → Env → State → State
touch_at none env st = st
touch_at (some a) env st = on_session a (touch env.now) st

unfoldable pub touch_session : Env → State → State
touch_session env st = touch_at st.session env st

-- The `switch` of `processRequest`.
unfoldable pub dispatch : Method → Env → Request → ℤ → State → State
dispatch options env r cseq st = send_response env (create_options cseq) st
dispatch describe env r cseq st = handle_describe env r cseq st
dispatch announce env r cseq st = handle_announce env r cseq st
dispatch setup env r cseq st = handle_setup env r cseq st
dispatch play env r cseq st = handle_play env r cseq st
dispatch do_record env r cseq st = handle_record env r cseq st
dispatch pause env r cseq st = handle_pause env cseq st
dispatch get_parameter env r cseq st = handle_parameter env r cseq st
dispatch set_parameter env r cseq st = handle_parameter env r cseq st
dispatch teardown env r cseq st = handle_teardown env cseq st
dispatch unknown env r cseq st = send_error env cseq 501 (codes "Not Implemented") st

unfoldable pub set_digest : Digest → State → State
set_digest d st = record st { digest = d }

abbrev pub after_verdict : Env → Request → Digest × Verdict → State → State
after_verdict env r (d, challenged is_digest stale) st =
    reject env (get_cseq r) is_digest stale (set_digest d st)
after_verdict env r (d, accepted) st =
    dispatch r.method env r (get_cseq r) (touch_session env (set_digest d st))

unfoldable pub count_request : Server → Server
count_request w = record w {
  stats = record w.stats { requests_total = w.stats.requests_total + 1 };
}

-- A request that was parsed.
unfoldable pub serve : Env → Request → State → State
serve env r st =
    let counted = on_server count_request st in after_verdict env r (judge env r counted) counted

abbrev pub serve_parsed : Env → Option Request → State → State
serve_parsed env none st = st
serve_parsed env (some r) st = serve env r st

-- `processRequest`.
unfoldable pub process_request : Env → Text → State → State
process_request env message st = serve_parsed env (parse new_request message) st

abbrev pub end_with : Option ℕ → State → State
end_with none st = st
end_with (some a) st =
    let s = session_at st.server a in
    on_server
      (λ w. note_disconnect s.role s.path s.client_ip (remove_session s.path s.session_id w)) st

-- What `handle` does when the connection has ended.
unfoldable pub end_connection : State → State
end_connection st = end_with st.session st
