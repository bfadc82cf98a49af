-- ===== src/Server/Connection/Guarded.antt =====
-- `checkAuthorization` of src/server/rtsp_server.cpp in front of every handler.
use rtsp_sdk.Common.{
  ◌⊎◌, inl, inr, Bool-cases, ap, ◌≡◌, ◌≢◌, refl, Bool, true, false, not, ◌||◌, [], ◌∷◌, ◌++◌,
  if◌then◌else◌, sym, ◌∙◌,
}
use rtsp_sdk.Text.Chars.{codes}
use rtsp_sdk.Text.Numbers.{ℤ, pos}
use rtsp_sdk.Rtsp.Request.{
  Request, Method, options, describe, announce, setup, play, do_record, pause, get_parameter,
  set_parameter, teardown, unknown, get_cseq, get_header,
}
use rtsp_sdk.Rtsp.Response.{Response, set_header, set_status, new_response}
use rtsp_sdk.Server.Auth.{Digest, Verdict, accepted, challenged, check_basic, check_digest}
use rtsp_sdk.Server.Auth.Proves.{
  ProvesBasic, ProvesDigest, check_basic-accepted, check_basic_proved, check_digest-accepted,
  check_digest_proved,
}
use rtsp_sdk.Server.Connection.{Env, State, send_response, on_server}
use rtsp_sdk.Server.Connection.Requests.{
  serve, after_verdict, judge, reject, set_digest, count_request, count_challenge, challenge_text,
  is_options, dispatch, touch_session,
}

-- The request was answered by 401, and nothing else happened to the sessions, the paths, the
-- configuration and the callbacks.
abbrev pub Blocked : State → State → Type 0
Blocked st after =
    (resp : Response) × (after.replies ≡ st.replies ++ (resp ∷ []))
    × (resp.status_code ≡ pos 401)
    × (after.session ≡ st.session)
    × (after.server.objects ≡ st.server.objects)
    × (after.server.paths ≡ st.server.paths)
    × (after.server.config ≡ st.server.config)
    × (after.server.connects ≡ st.server.connects)
    × (after.server.disconnects ≡ st.server.disconnects)

reject-Blocked :
    (env : Env) (cseq : ℤ) (is_digest stale : Bool) (d : Digest) (st : State)
    → Blocked st (reject env cseq is_digest stale (set_digest d (on_server count_request st)))
unfolding reject send_response on_server count_challenge count_request set_digest set_header
    set_status
reject-Blocked env cseq is_digest stale d st = (
  set_header (codes "WWW-Authenticate") (challenge_text st.server.config d.nonce is_digest stale)
      (set_status (pos 401) (codes "Unauthorized") (new_response cseq)),
  refl,
  refl,
  refl,
  refl,
  refl,
  refl,
  refl,
  refl,
)

-- What the scheme that is configured says of a request.
unfoldable pub scheme : Env → Request → State → Verdict
scheme env r st =
    let cfg = st.server.config in
    let auth = get_header r (codes "Authorization") in
    if cfg.auth_use_digest
    then (check_digest cfg env.now env.nonce r.method auth st.digest).1
    else check_basic cfg auth

verdict_of :
    (on other by_digest : Bool) (d : Digest) (x : Digest × Verdict) (y : Verdict)
    → on ≡ true
    → other ≡ false
    → (if not on || other then (d, accepted) else if by_digest then x else (d, y)).1
      ≡ (if by_digest then x.1 else y)
verdict_of true false true d x y e f = refl
verdict_of true false false d x y e f = refl
verdict_of true true by_digest d x y e f = cc
verdict_of false other by_digest d x y e f = cc

-- The request has an Authorization header that proves the configured user and password.
abbrev pub Proves : Env → Request → State → Type 0
Proves env r st =
    let cfg = st.server.config in
    let auth = get_header r (codes "Authorization") in
    ((cfg.auth_use_digest ≡ false) × ProvesBasic cfg auth)
    ⊎ ((cfg.auth_use_digest ≡ true) × ProvesDigest cfg env.now r.method auth st.digest)

scheme-Proves :
    (env : Env) (r : Request) (st : State) → scheme env r st ≡ accepted → Proves env r st
unfolding scheme
scheme-Proves env r st h =
    let cfg = st.server.config in
    let auth = get_header r (codes "Authorization") in
    let by_digest = check_digest cfg env.now env.nonce r.method auth st.digest in
    elim (Bool-cases cfg.auth_use_digest) [
      | inl y ↦ inr (
        y,
        check_digest-accepted cfg env.now env.nonce r.method auth st.digest
            (sym (ap (λ b. if b then by_digest.1 else check_basic cfg auth) y) ∙ h),
      )
      | inr n ↦ inl (
        n,
        check_basic-accepted cfg auth
            (sym (ap (λ b. if b then by_digest.1 else check_basic cfg auth) n) ∙ h),
      )
    ]

scheme_proved :
    (env : Env) (r : Request) (st : State) → Proves env r st → scheme env r st ≡ accepted
unfolding scheme
scheme_proved env r st (inl (n, proof)) =
    let cfg = st.server.config in
    let auth = get_header r (codes "Authorization") in
    ap
      (λ b.
        if b
        then (check_digest cfg env.now env.nonce r.method auth st.digest).1
        else check_basic cfg auth)
      n
    ∙ check_basic_proved cfg auth proof
scheme_proved env r st (inr (y, proof)) =
    let cfg = st.server.config in
    let auth = get_header r (codes "Authorization") in
    ap
      (λ b.
        if b
        then (check_digest cfg env.now env.nonce r.method auth st.digest).1
        else check_basic cfg auth)
      y
    ∙ check_digest_proved cfg env.now env.nonce r.method auth st.digest proof

not_options : (m : Method) → m ≢ options → is_options m ≡ false
not_options options h = absurd (h refl)
not_options describe h = refl
not_options announce h = refl
not_options setup h = refl
not_options play h = refl
not_options do_record h = refl
not_options pause h = refl
not_options get_parameter h = refl
not_options set_parameter h = refl
not_options teardown h = refl
not_options unknown h = refl

-- The request went on to its handler, with some state of the Digest scheme.
abbrev pub Served : Env → Request → State → State → Type 0
Served env r st after =
    (d : Digest) × (after
      ≡ dispatch r.method env r (get_cseq r)
          (touch_session env (set_digest d (on_server count_request st))))

verdict-decides :
    (env : Env) (r : Request) (st : State) (v : Digest × Verdict)
    → (¬ (v.1 ≡ accepted) × Blocked st (after_verdict env r v (on_server count_request st)))
      ⊎ ((v.1 ≡ accepted) × Served env r st (after_verdict env r v (on_server count_request st)))
verdict-decides env r st (d, challenged is_digest stale) =
    inl ((λ e. cc), reject-Blocked env (get_cseq r) is_digest stale d st)
verdict-decides env r st (d, accepted) = inr (refl, (d, refl))

-- Where authentication is on, a request other than OPTIONS goes on to its handler exactly if its
-- Authorization header proves the configured user and password: by Basic, if their text is encoded in
-- it; by Digest, if the nonce is in time, all parameters are there, user, realm and nonce are those of
-- the server, and the response is the hash that RFC 2617 has for the method and the parameters, with
-- a count above the last one where there is a qop. Otherwise it is answered by 401 and changes
-- nothing of the sessions, the paths, the configuration and the callbacks.
pub serve-Proves :
    (env : Env) (r : Request) (st : State)
    → st.server.config.auth_enabled ≡ true
    → r.method ≢ options
    → (¬ Proves env r st × Blocked st (serve env r st))
      ⊎ (Proves env r st × Served env r st (serve env r st))
unfolding serve judge scheme on_server count_request
serve-Proves env r st on other =
    let cfg = st.server.config in
    let auth = get_header r (codes "Authorization") in
    let told =
      verdict_of cfg.auth_enabled (is_options r.method) cfg.auth_use_digest st.digest
        (check_digest cfg env.now env.nonce r.method auth st.digest) (check_basic cfg auth) on
        (not_options r.method other) in
    elim (verdict-decides env r st (judge env r (on_server count_request st))) [
      | inl (n, blocked) ↦ inl ((λ p. n (told ∙ scheme_proved env r st p)), blocked)
      | inr (y, served) ↦ inr (scheme-Proves env r st (sym told ∙ y), served)
    ]
