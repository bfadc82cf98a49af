-- ===== src/Server/Connection/Phases/Machine.antt =====
-- `processRequest` of src/server/rtsp_server.cpp follows the state machine.
use rtsp_sdk.Common.{
  ℕ, ◌<◌, length, get_or, ◌≡◌, refl, sym, ap, ◌∙◌, subst, Bool, Option, none, some, [], ◌∷◌, ◌++◌,
}
use rtsp_sdk.Text.Chars.{codes}
use rtsp_sdk.Text.Dict.{lookup}
use rtsp_sdk.Text.Numbers.{ℤ, pos}
use rtsp_sdk.Rtsp.Request.{
  Request, Method, unknown, options, describe, setup, play, pause, teardown, announce, do_record,
  get_parameter, set_parameter, get_cseq,
}
use rtsp_sdk.Rtsp.Response.{create_options, set_header, set_status, new_response}
use rtsp_sdk.Server.Session.{new_session}
use rtsp_sdk.Server.Paths.{Server, session_at}
use rtsp_sdk.Server.Url.{extract_path}
use rtsp_sdk.Server.Auth.{Digest, Verdict, accepted, challenged}
use rtsp_sdk.Server.Connection.{Env, State, send_response, on_session, on_server}
use rtsp_sdk.Server.Connection.Describe.{handle_describe, handle_announce}
use rtsp_sdk.Server.Connection.Requests.{
  dispatch, handle_play, handle_record, handle_pause, handle_parameter, handle_teardown, serve,
  after_verdict, judge, reject, touch, touch_at, touch_session, set_digest, count_request,
  count_challenge, challenge_text,
}
use rtsp_sdk.Server.Connection.Phases.{
  phase, phase_at, phase_of, Edge, refused, is_options, is_get, is_set, Placed, PlacedAt, Follows,
}
use rtsp_sdk.Server.Connection.Phases.Handlers.{
  fails, told, has, options_200, on_session-Placed, on_session-phase, play_with-Follows,
  pause_with-Follows, record_with-Follows, parameter_with-Follows, describe_path-Follows,
  teardown_with-Follows, not_200,
}
use rtsp_sdk.Server.Connection.Phases.Setups.{announce_with-Follows}
use rtsp_sdk.Server.Connection.Phases.Publisher.{handle_setup-Follows}

-- Servers with the same objects.
objects-phase : (o : Option ℕ) (v w : Server) → v.objects ≡ w.objects → phase_at v o ≡ phase_at w o
unfolding session_at
objects-phase none v w e = refl
objects-phase (some a) v w e = ap (λ xs. phase_of (get_or xs a (new_session 0))) e

objects-Placed : (o : Option ℕ) (v w : Server) → v.objects ≡ w.objects → PlacedAt w o → PlacedAt v o
objects-Placed none v w e p = tt
objects-Placed (some a) v w e p = subst (λ xs. a < length xs) (sym e) p

module _ (env : Env) (r : Request) where
  dispatch-Follows :
      (m : Method) (cseq : ℤ) (st : State) → Placed st → Follows m st (dispatch m env r cseq st)
  unfolding dispatch handle_describe handle_announce handle_play handle_record handle_pause
      handle_parameter handle_teardown
  dispatch-Follows options cseq st p =
      told env r cseq st p options (create_options cseq) (options_200 cseq [] []) is_options
  dispatch-Follows describe cseq st p =
      describe_path-Follows env r cseq st p (lookup (extract_path r.path) st.server.paths)
  dispatch-Follows announce cseq st p = announce_with-Follows env r cseq st.session st refl p
  dispatch-Follows setup cseq st p = handle_setup-Follows env r cseq st p
  dispatch-Follows play cseq st p = play_with-Follows env r cseq st p st.session refl
  dispatch-Follows do_record cseq st p = record_with-Follows env r cseq st p st.session refl
  dispatch-Follows pause cseq st p = pause_with-Follows env r cseq st p st.session refl
  dispatch-Follows get_parameter cseq st p =
      parameter_with-Follows env r cseq st p get_parameter st.session is_get
  dispatch-Follows set_parameter cseq st p =
      parameter_with-Follows env r cseq st p set_parameter st.session is_set
  dispatch-Follows teardown cseq st p = teardown_with-Follows env r cseq st p st.session refl
  dispatch-Follows unknown cseq st p =
      fails env r cseq st p unknown 501 (codes "Not Implemented") refl

  -- The session object is touched, which no phase depends on.
  touch_at-phase :
      (o : Option ℕ) (st : State)
      → st.session ≡ o
      → Placed st
      → phase (touch_at o env st) ≡ phase st
  unfolding touch phase_of phase
  touch_at-phase none st e p = refl
  touch_at-phase (some a) st e p =
      on_session-phase env r (pos 0) st a (touch env.now) e (has env r (pos 0) st p a e)
      ∙ sym (ap (phase_at st.server) e)

  touch_at-Placed :
      (o : Option ℕ) (st : State) → st.session ≡ o → Placed st → Placed (touch_at o env st)
  touch_at-Placed none st e p = p
  touch_at-Placed (some a) st e p =
      on_session-Placed env r (pos 0) st a (touch env.now) e (has env r (pos 0) st p a e)

  touch_at-replies : (o : Option ℕ) (st : State) → (touch_at o env st).replies ≡ st.replies
  unfolding on_session
  touch_at-replies none st = refl
  touch_at-replies (some a) st = refl

  -- From a state with the same replies and phase.
  shift :
      (m : Method) (st now after : State)
      → now.replies ≡ st.replies
      → phase now ≡ phase st
      → Follows m now after
      → Follows m st after
  shift m st now after e f (resp, replies, edge, placed) = (
    resp,
    replies ∙ ap (◌++ (resp ∷ [])) e,
    subst (λ x. Edge m x resp.status_code (phase after)) f edge,
    placed,
  )

  reject-Follows :
      (m : Method) (cseq : ℤ) (is_digest stale : Bool) (st : State)
      → Placed st
      → Follows m st (reject env cseq is_digest stale st)
  unfolding reject send_response on_server count_challenge set_header set_status phase session_at
  reject-Follows m cseq is_digest stale st p = (
    set_header (codes "WWW-Authenticate")
        (challenge_text st.server.config st.digest.nonce is_digest stale)
        (set_status (pos 401) (codes "Unauthorized") (new_response cseq)),
    refl,
    subst (λ x. Edge m (phase st) (pos 401) x)
        (sym (objects-phase st.session (count_challenge st.server) st.server refl))
        (refused (not_200 401 refl)),
    objects-Placed st.session (count_challenge st.server) st.server refl p,
  )

  verdict-Follows :
      (v : Digest × Verdict) (st : State)
      → Placed st
      → Follows r.method st (after_verdict env r v st)
  unfolding set_digest touch_session phase
  verdict-Follows (d, challenged is_digest stale) st p =
      shift r.method st (set_digest d st)
        (reject env (get_cseq r) is_digest stale (set_digest d st)) refl refl
        (reject-Follows r.method (get_cseq r) is_digest stale (set_digest d st) p)
  verdict-Follows (d, accepted) st p =
      let now = set_digest d st in
      shift r.method st (touch_session env now)
        (dispatch r.method env r (get_cseq r) (touch_session env now))
        (touch_at-replies now.session now) (touch_at-phase now.session now refl p)
        (dispatch-Follows r.method (get_cseq r) (touch_session env now)
          (touch_at-Placed now.session now refl p))

-- Every request that was parsed, in any state whose session is one of the objects, is answered by one
-- reply, with a status and a change of the phase that the state machine has for its method: a status
-- other than 200 leaves the phase. The session of the connection stays one of the objects.
pub serve-Follows :
    (env : Env) (r : Request) (st : State) → Placed st → Follows r.method st (serve env r st)
unfolding serve on_server count_request phase
serve-Follows env r st p =
    let counted = on_server count_request st in
    shift env r r.method st counted (after_verdict env r (judge env r counted) counted) refl
      (objects-phase st.session (count_request st.server) st.server refl)
      (verdict-Follows env r (judge env r counted) counted
        (objects-Placed st.session (count_request st.server) st.server refl p))
