-- ===== src/Server/Connection/Phases/Handlers.antt =====
-- Each handler of `RtspConnection` in src/server/rtsp_server.cpp against the state machine.
use rtsp_sdk.Common.{
  ℕ, ◌≡◌, ◌≢◌, refl, sym, ap, subst, false, ◌||◌, Option, none, some, [], ◌∷◌, ◌++◌, ◌==◌, by_test,
  arith,
}
use rtsp_sdk.Text.Chars.{Text, codes}
use rtsp_sdk.Text.Search.{same, is_empty}
use rtsp_sdk.Text.Numbers.{ℤ, pos, negsuc}
use rtsp_sdk.Rtsp.Request.{Request, Method, describe, play, pause, teardown, do_record, get_session}
use rtsp_sdk.Rtsp.Response.{
  Response, create_error, set_status, new_response, create_ok, create_play, create_setup,
  create_teardown, create_options, create_describe, set_session, set_transport, set_header,
  set_body, set_content_type,
}
use rtsp_sdk.Server.Session.{ClientSession, stop}
use rtsp_sdk.Server.Paths.{MediaPath, session_at, change_session}
use rtsp_sdk.Server.Paths.Objects.{Has, Has-change, session_at-change}
use rtsp_sdk.Server.Connection.{Env, State, send_response, send_error, on_session, on_server}
use rtsp_sdk.Server.Connection.Requests.{
  play_with, start_playing, pause_with, record_with, start_recording, can_record, parameter_with,
  teardown_with, forget_session, close_session,
}
use rtsp_sdk.Server.Connection.Describe.{describe_path, content_base, describe_sdp}
use rtsp_sdk.Server.Connection.Phases.{
  is_describe, leaves, phase, phase_at, phase_of, Edge, refused, asked, IsQuery, Placed, PlacedAt,
  Follows,
}
use rtsp_sdk.Server.Connection.Phases.Edges.{start_playing-Edge, pause-Edge, start_recording-Edge}

magnitude : ℤ → ℕ
magnitude (pos n) = n
magnitude (negsuc n) = n

pub not_200 : (code : ℕ) → (code == 200) ≡ false → pos code ≢ pos 200
unfolding magnitude
not_200 code h e = let n : code ≡ 200 = ap magnitude e in ground arith

-- An error.
pub send_error-Follows :
    (m : Method) (env : Env) (cseq : ℤ) (code : ℕ) (reason : Text) (st : State)
    → (code == 200) ≡ false
    → Placed st
    → Follows m st (send_error env cseq code reason st)
unfolding send_error send_response create_error set_status phase
send_error-Follows m env cseq code reason st h p =
    (create_error cseq (pos code) reason, refl, refused (not_200 code h), p)

-- An answer with status 200, after a change that gave no reply.
pub answer-Follows :
    (m : Method) (env : Env) (resp : Response) (st after : State)
    → resp.status_code ≡ pos 200
    → after.replies ≡ st.replies
    → Edge m (phase st) (pos 200) (phase after)
    → Placed after
    → Follows m st (send_response env resp after)
unfolding send_response phase
answer-Follows m env resp st after ok r e p =
    (resp, ap (◌++ (resp ∷ [])) r, subst (λ c. Edge m (phase st) c (phase after)) (sym ok) e, p)

module _ (env : Env) (r : Request) (cseq : ℤ) (st : State) where
  -- A change of the session object.
  pub on_session-Placed :
      (a : ℕ) (f : ClientSession → ClientSession)
      → st.session ≡ some a
      → Has st.server a
      → Placed (on_session a f st)
  unfolding on_session
  on_session-Placed a f e h =
      subst (PlacedAt (change_session a f st.server)) (sym e) (Has-change st.server a a f h)

  pub on_session-phase :
      (a : ℕ) (f : ClientSession → ClientSession)
      → st.session ≡ some a
      → Has st.server a
      → phase (on_session a f st) ≡ phase_of (f (session_at st.server a))
  unfolding on_session phase
  on_session-phase a f e h = rw e (ap phase_of (session_at-change st.server a f h))

-- The statuses of the answers.
module _ (cseq : ℤ) (id t : Text) where
  ok_200 : (create_ok cseq).status_code ≡ pos 200
  unfolding create_ok new_response
  ok_200 = refl

  pub session_200 : (set_session id (create_ok cseq)).status_code ≡ pos 200
  unfolding set_session set_header create_ok new_response
  session_200 = refl

  play_200 : (create_play cseq id).status_code ≡ pos 200
  unfolding create_play set_session set_header new_response
  play_200 = refl

  pub setup_200 : (create_setup cseq id t).status_code ≡ pos 200
  unfolding create_setup set_session set_transport set_header new_response
  setup_200 = refl

  teardown_200 : (create_teardown cseq).status_code ≡ pos 200
  unfolding create_teardown new_response
  teardown_200 = refl

  pub options_200 : (create_options cseq).status_code ≡ pos 200
  unfolding create_options set_header new_response
  options_200 = refl

  describe_200 :
      (base : Text)
      → (set_header (codes "Content-Base") base (create_describe cseq t)).status_code ≡ pos 200
  unfolding create_describe set_body set_content_type set_header new_response
  describe_200 base = refl

module _ (env : Env) (r : Request) (cseq : ℤ) (st : State) (placed : Placed st) where
  pub has : (a : ℕ) → st.session ≡ some a → Has st.server a
  has a e = subst (PlacedAt st.server) e placed

  -- An error.
  pub fails :
      (m : Method) (code : ℕ) (reason : Text)
      → (code == 200) ≡ false
      → Follows m st (send_error env cseq code reason st)
  fails m code reason h = send_error-Follows m env cseq code reason st h placed

  -- An answer that changes nothing.
  pub told :
      (m : Method) (resp : Response)
      → resp.status_code ≡ pos 200
      → IsQuery m
      → Follows m st (send_response env resp st)
  told m resp ok q = answer-Follows m env resp st st ok refl (asked q) placed

  -- An answer behind a change of the session object.
  changed :
      (m : Method) (resp : Response) (a : ℕ) (f : ClientSession → ClientSession)
      → st.session ≡ some a
      → resp.status_code ≡ pos 200
      → Edge m (phase_of (session_at st.server a)) (pos 200) (phase_of (f (session_at st.server a)))
      → Follows m st (send_response env resp (on_session a f st))
  unfolding phase on_session
  changed m resp a f e ok edge =
      answer-Follows m env resp st (on_session a f st) ok refl
        (subst (λ p. Edge m p (pos 200) (phase (on_session a f st)))
          (ap (phase_at st.server) (sym e))
          (subst (Edge m (phase_of (session_at st.server a)) (pos 200))
            (sym (on_session-phase env r cseq st a f e (has a e))) edge))
        (on_session-Placed env r cseq st a f e (has a e))

  pub play_with-Follows :
      (o : Option ℕ) → st.session ≡ o → Follows play st (play_with o env r cseq st)
  play_with-Follows none e = fails play 455 (codes "Method Not Valid In This State") refl
  play_with-Follows (some a) e =
      let s = session_at st.server a in
      by_test (Follows play st) (same (get_session r) s.session_id) _ _
        (λ y.
          changed play (create_play cseq s.session_id) a start_playing e
            (play_200 cseq s.session_id []) (start_playing-Edge s))
        (λ n. fails play 454 (codes "Session Not Found") refl)

  pub pause_with-Follows :
      (o : Option ℕ) → st.session ≡ o → Follows pause st (pause_with o env cseq st)
  pause_with-Follows none e = fails pause 455 (codes "Method Not Valid In This State") refl
  pause_with-Follows (some a) e =
      changed pause (create_ok cseq) a stop e (ok_200 cseq [] [])
        (pause-Edge (session_at st.server a))

  pub record_with-Follows :
      (o : Option ℕ) → st.session ≡ o → Follows do_record st (record_with o env r cseq st)
  record_with-Follows none e = fails do_record 455 (codes "Method Not Valid In This State") refl
  record_with-Follows (some a) e =
      let s = session_at st.server a in
      by_test (Follows do_record st) (can_record s.role s.rtp_receiver) _ _
        (λ y.
          by_test (Follows do_record st)
            (is_empty (get_session r) || same (get_session r) s.session_id) _ _
            (λ z.
              changed do_record (set_session s.session_id (create_ok cseq)) a
                (start_recording env.now) e (session_200 cseq s.session_id [])
                (start_recording-Edge env.now s y))
            (λ n. fails do_record 454 (codes "Session Not Found") refl))
        (λ n. fails do_record 455 (codes "Method Not Valid In This State") refl)

  pub parameter_with-Follows :
      (m : Method) (o : Option ℕ) → IsQuery m → Follows m st (parameter_with o env r cseq st)
  parameter_with-Follows m none q = fails m 454 (codes "Session Not Found") refl
  parameter_with-Follows m (some a) q =
      by_test (Follows m st)
        (is_empty (get_session r) || same (get_session r) (session_at st.server a).session_id) _ _
        (λ y. told m (create_ok cseq) (ok_200 cseq [] []) q)
        (λ n. fails m 454 (codes "Session Not Found") refl)

  pub describe_path-Follows :
      (o : Option MediaPath) → Follows describe st (describe_path env r cseq o st)
  unfolding describe_path
  describe_path-Follows none = fails describe 404 (codes "Not Found") refl
  describe_path-Follows (some m) =
      told describe
        (set_header (codes "Content-Base") (content_base r)
          (create_describe cseq (describe_sdp env m.config)))
        (describe_200 cseq [] (describe_sdp env m.config) (content_base r)) is_describe

  pub teardown_with-Follows :
      (o : Option ℕ) → st.session ≡ o → Follows teardown st (teardown_with o env cseq st)
  unfolding phase forget_session on_server
  teardown_with-Follows none e =
      answer-Follows teardown env (create_teardown cseq) st st (teardown_200 cseq [] []) refl
        (subst (λ q. Edge teardown (phase st) (pos 200) (phase_at st.server q)) (sym e) leaves)
        placed
  teardown_with-Follows (some a) e =
      answer-Follows teardown env (create_teardown cseq) st
        (forget_session (on_server (close_session (session_at st.server a)) st))
        (teardown_200 cseq [] []) refl leaves tt
