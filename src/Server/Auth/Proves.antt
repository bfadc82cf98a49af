-- ===== src/Server/Auth/Proves.antt =====
-- What a header has to say to pass `checkAuthorization` of src/server/rtsp_server.cpp, in the terms of
-- RFC 2617.
use rtsp_sdk.Common.{
  ℕ, ◌+◌, ◌*◌, ◌-◌, ◌≤◌, ◌<◌, ◌≡◌, ◌≢◌, refl, sym, ap, ◌∙◌, Bool, true, false, not, ◌&&◌, ◌||◌, ◌⊎◌,
  inl, inr, Bool-cases, Option, none, some, List, [], ◌∷◌, ◌++◌, drop, ltb, if◌then◌else◌, arith,
}
use rtsp_sdk.Text.Chars.{Text, codes}
use rtsp_sdk.Text.Search.{
  same, same→≡, same_self, starts_with, starts_with-append, starts_with-split, is_empty,
}
use rtsp_sdk.Text.Base64.{base64_decode}
use rtsp_sdk.Text.Dict.{Dict, lookup}
use rtsp_sdk.Text.Md5.{md5_hex}
use rtsp_sdk.Rtsp.Request.{Method, method_to_string}
use rtsp_sdk.Server.Config.{ServerConfig}
use rtsp_sdk.Server.Auth.{
  Digest, Verdict, accepted, challenged, refused, check_basic, check_digest, check_params,
  check_response, check_count, compare_response, is_replayed, is_stale, is_ours, has_all, nc_key,
  parse_hex, param, parse_auth_params, expected_qop, expected_plain, ha1, ha2, renew,
}

-- User and password behind the scheme, encoded.
abbrev pub ProvesBasic : ServerConfig → Text → Type 0
ProvesBasic cfg auth =
    (secret : Text) × (auth ≡ codes "Basic " ++ secret)
    × (base64_decode secret ≡ cfg.auth_username ++ (b':' ∷ cfg.auth_password))

-- Texts with colons between them.
abbrev pub colons : Text → List Text → Text
colons t [] = t
colons t (u ∷ us) = t ++ (b':' ∷ colons u us)

abbrev pub IsNew : ℕ → Option ℕ → Type 0
IsNew n none = Unit
IsNew n (some last) = last < n

module _ (cfg : ServerConfig) (method : Method) (kv : Dict Text) where
  -- H(A1) and H(A2).
  abbrev pub user_hash : Text
  user_hash = md5_hex (colons cfg.auth_username (cfg.auth_realm ∷ cfg.auth_password ∷ []))

  abbrev pub request_hash : Text
  request_hash = md5_hex (colons (method_to_string method) (param (codes "uri") kv ∷ []))

  -- The response without qop, and the one with it, whose count is above the last one.
  abbrev pub Answers : Digest → Type 0
  Answers d =
      ((param (codes "qop") kv ≡ [])
        × (param (codes "response") kv
            ≡ md5_hex (colons user_hash (param (codes "nonce") kv ∷ request_hash ∷ []))))
      ⊎ ((param (codes "qop") kv ≢ [])
          × (param (codes "nc") kv ≢ [])
          × (param (codes "cnonce") kv ≢ [])
          × (n : ℕ) × (parse_hex (param (codes "nc") kv) ≡ some n)
          × IsNew n (lookup (nc_key kv) d.nc_seen)
          × (param (codes "response") kv
              ≡ md5_hex (
                  colons user_hash (
                    param (codes "nonce") kv
                    ∷ param (codes "nc") kv
                    ∷ param (codes "cnonce") kv
                    ∷ param (codes "qop") kv
                    ∷ request_hash
                    ∷ []))))

  abbrev pub Present : Type 0
  Present =
      (param (codes "username") kv ≢ [])
      × (param (codes "realm") kv ≢ [])
      × (param (codes "nonce") kv ≢ [])
      × (param (codes "uri") kv ≢ [])
      × (param (codes "response") kv ≢ [])

  abbrev pub Ours : Digest → Type 0
  Ours d =
      (param (codes "username") kv ≡ cfg.auth_username)
      × (param (codes "realm") kv ≡ cfg.auth_realm)
      × (param (codes "nonce") kv ≡ d.nonce)

-- The parameters behind the scheme, while the nonce is in time.
abbrev pub ProvesDigest : ServerConfig → ℕ → Method → Text → Digest → Type 0
ProvesDigest cfg now method auth d =
    (text : Text) × (auth ≡ codes "Digest " ++ text)
    × (now ≤ d.created + cfg.auth_nonce_ttl_ms * 1_000_000)
    × Present cfg method (parse_auth_params text)
    × Ours cfg method (parse_auth_params text) d
    × Answers cfg method (parse_auth_params text) d

some_text : (s : Text) → is_empty s ≡ false → s ≢ []
unfolding is_empty
some_text [] h = cc
some_text (c ∷ s) h = λ e. cc

is_some : (s : Text) → s ≢ [] → is_empty s ≡ false
unfolding is_empty
is_some [] h = absurd (h refl)
is_some (c ∷ s) h = refl

is_none : (s : Text) → s ≡ [] → is_empty s ≡ true
unfolding is_empty
is_none [] h = refl
is_none (c ∷ s) h = cc

no_text : (s : Text) → is_empty s ≡ true → s ≡ []
unfolding is_empty
no_text [] h = refl
no_text (c ∷ s) h = cc

-- An accepted verdict of a test comes from the branch that can accept.
accepted_then :
    (b : Bool) (x y : Digest × Verdict)
    → (if b then x else y).1 ≡ accepted
    → y.1 ≢ accepted
    → (b ≡ true) × (x.1 ≡ accepted)
accepted_then true x y h n = (refl, h)
accepted_then false x y h n = absurd (n h)

accepted_else :
    (b : Bool) (x y : Digest × Verdict)
    → (if b then x else y).1 ≡ accepted
    → x.1 ≢ accepted
    → (b ≡ false) × (y.1 ≡ accepted)
accepted_else true x y h n = absurd (n h)
accepted_else false x y h n = (refl, h)

both : (a b : Bool) → (a && b) ≡ true → (a ≡ true) × (b ≡ true)
both true b h = (refl, h)
both false b h = cc

neither : (a b : Bool) → (a || b) ≡ false → (a ≡ false) × (b ≡ false)
neither true b h = cc
neither false b h = (refl, h)

not-true : (a : Bool) → not a ≡ true → a ≡ false
not-true true h = cc
not-true false h = refl

module _ (cfg : ServerConfig) (method : Method) (kv : Dict Text) (d : Digest) where
  compared :
      (expected : Text) (e : Digest)
      → (compare_response expected kv e).1 ≡ accepted
      → param (codes "response") kv ≡ expected
  unfolding compare_response
  compared expected e h = sym (
      same→≡ expected (param (codes "response") kv)
        (accepted_then (same expected (param (codes "response") kv)) (e, accepted) (refused e) h
          (λ x. cc)).0)

  IsNew-count : (n : ℕ) (o : Option ℕ) → is_replayed n o ≡ false → IsNew n o
  IsNew-count n none h = tt
  IsNew-count n (some last) h = ground arith

  count-accepted :
      (o : Option ℕ)
      → (check_count cfg method kv d o).1 ≡ accepted
      → (n : ℕ) × (o ≡ some n)
        × IsNew n (lookup (nc_key kv) d.nc_seen)
        × (param (codes "response") kv ≡ expected_qop cfg method kv)
  unfolding check_count
  count-accepted none h = absurd cc
  count-accepted (some n) h =
      let (fresh, k) =
        accepted_else (is_replayed n (lookup (nc_key kv) d.nc_seen)) (refused d) _ h (λ x. cc) in
      (
        n,
        refl,
        IsNew-count n (lookup (nc_key kv) d.nc_seen) fresh,
        compared (expected_qop cfg method kv) _ k,
      )

  answered :
      (x : Bool)
      → is_empty (param (codes "qop") kv) ≡ x
      → (if x
          then compare_response (expected_plain cfg method kv) kv d
          else if is_empty (param (codes "nc") kv) || is_empty (param (codes "cnonce") kv)
          then refused d
          else check_count cfg method kv d (parse_hex (param (codes "nc") kv))).1
        ≡ accepted
      → Answers cfg method kv d
  unfolding expected_plain expected_qop ha1 ha2
  answered true y h =
      inl (no_text (param (codes "qop") kv) y, compared (expected_plain cfg method kv) d h)
  answered false q h =
      let (k, counted) =
        accepted_else (is_empty (param (codes "nc") kv) || is_empty (param (codes "cnonce") kv))
          (refused d) _ h (λ x. cc) in
      let (nc, cnonce) =
        neither (is_empty (param (codes "nc") kv)) (is_empty (param (codes "cnonce") kv)) k in
      let (n, read, fresh, e) = count-accepted (parse_hex (param (codes "nc") kv)) counted in
      inr (
        some_text (param (codes "qop") kv) q,
        some_text (param (codes "nc") kv) nc,
        some_text (param (codes "cnonce") kv) cnonce,
        n,
        read,
        fresh,
        e,
      )

  params-accepted :
      (check_params cfg method kv d).1 ≡ accepted
      → Present cfg method kv × Ours cfg method kv d × Answers cfg method kv d
  unfolding check_params check_response has_all is_ours
  params-accepted h =
      let (k, answer) = accepted_then (has_all kv && is_ours cfg kv d) _ (refused d) h (λ x. cc) in
      let (all, ours) = both (has_all kv) (is_ours cfg kv d) k in
      let (a, r1) = both (not (is_empty (param (codes "username") kv))) _ all in
      let (b, r2) = both (not (is_empty (param (codes "realm") kv))) _ r1 in
      let (c, r3) = both (not (is_empty (param (codes "nonce") kv))) _ r2 in
      let (u, v) = both (not (is_empty (param (codes "uri") kv))) _ r3 in
      let (user, r4) = both (same (param (codes "username") kv) cfg.auth_username) _ ours in
      let (realm, nonce) = both (same (param (codes "realm") kv) cfg.auth_realm) _ r4 in
      (
        (
          some_text _ (not-true _ a),
          some_text _ (not-true _ b),
          some_text _ (not-true _ c),
          some_text _ (not-true _ u),
          some_text _ (not-true _ v),
        ),
        (same→≡ _ _ user, same→≡ _ _ realm, same→≡ _ _ nonce),
        answered (is_empty (param (codes "qop") kv)) refl answer,
      )

-- What is accepted is proved.
pub check_digest-accepted :
    (cfg : ServerConfig) (now : ℕ) (fresh : Text) (method : Method) (auth : Text) (d : Digest)
    → (check_digest cfg now fresh method auth d).1 ≡ accepted
    → ProvesDigest cfg now method auth d
unfolding check_digest is_stale
check_digest-accepted cfg now fresh method auth d h =
    let (in_time, k) =
      accepted_else (is_stale cfg now d) (renew now fresh, challenged true true) _ h (λ x. cc) in
    let (front, l) = accepted_then (starts_with (codes "Digest ") auth) _ (refused d) k (λ x. cc) in
    let (all, ours, answers) = params-accepted cfg method (parse_auth_params (drop 7 auth)) d l in
    (drop 7 auth, starts_with-split (codes "Digest ") auth front, ground arith, all, ours, answers)

pub check_basic-accepted :
    (cfg : ServerConfig) (auth : Text) → check_basic cfg auth ≡ accepted → ProvesBasic cfg auth
unfolding check_basic
check_basic-accepted cfg auth h =
    elim (Bool-cases (
      starts_with (codes "Basic ") auth
      && same (base64_decode (drop 6 auth)) (cfg.auth_username ++ (b':' ∷ cfg.auth_password)))) [
        | inl y ↦
            let (front, secret) = both (starts_with (codes "Basic ") auth) _ y in
            (drop 6 auth, starts_with-split (codes "Basic ") auth front, same→≡ _ _ secret)
        | inr n ↦
            let other = sym (ap (λ b. if b then accepted else challenged false false) n) ∙ h in
            absurd cc
      ]

-- And what is proved is accepted.
same-true : (s t : Text) → s ≡ t → same s t ≡ true
same-true s t e = ap (same s) (sym e) ∙ same_self s

module _ (cfg : ServerConfig) (method : Method) (kv : Dict Text) (d : Digest) where
  answer_equal :
      (expected : Text) (e : Digest)
      → param (codes "response") kv ≡ expected
      → (compare_response expected kv e).1 ≡ accepted
  unfolding compare_response
  answer_equal expected e h = rw (same-true expected (param (codes "response") kv) (sym h)) refl

  count_fresh : (n : ℕ) (o : Option ℕ) → IsNew n o → is_replayed n o ≡ false
  count_fresh n none h = refl
  count_fresh n (some last) h = ground arith

  count_of :
      (n : ℕ) (o : Option ℕ)
      → o ≡ some n
      → IsNew n (lookup (nc_key kv) d.nc_seen)
      → param (codes "response") kv ≡ expected_qop cfg method kv
      → (check_count cfg method kv d o).1 ≡ accepted
  unfolding check_count
  count_of n o e fresh h =
      rw (e, count_fresh n (lookup (nc_key kv) d.nc_seen) fresh)
        (answer_equal (expected_qop cfg method kv) _ h)

  response_of : Answers cfg method kv d → (check_response cfg method kv d).1 ≡ accepted
  unfolding check_response expected_plain expected_qop ha1 ha2
  response_of (inl (q, h)) =
      rw (is_none (param (codes "qop") kv) q) (answer_equal (expected_plain cfg method kv) d h)
  response_of (inr (q, nc, cnonce, n, read, fresh, h)) =
      rw
        (
          is_some (param (codes "qop") kv) q,
          is_some (param (codes "nc") kv) nc,
          is_some (param (codes "cnonce") kv) cnonce,
        )
        (count_of n (parse_hex (param (codes "nc") kv)) read fresh h)

  all_of : Present cfg method kv → has_all kv ≡ true
  unfolding has_all
  all_of (a, b, c, u, v) =
      rw
        (
          is_some (param (codes "username") kv) a,
          is_some (param (codes "realm") kv) b,
          is_some (param (codes "nonce") kv) c,
          is_some (param (codes "uri") kv) u,
          is_some (param (codes "response") kv) v,
        )
        refl

  Ours-of : Ours cfg method kv d → is_ours cfg kv d ≡ true
  unfolding is_ours
  Ours-of (user, realm, nonce) =
      rw
        (
          same-true (param (codes "username") kv) cfg.auth_username user,
          same-true (param (codes "realm") kv) cfg.auth_realm realm,
          same-true (param (codes "nonce") kv) d.nonce nonce,
        )
        refl

pub check_digest_proved :
    (cfg : ServerConfig) (now : ℕ) (fresh : Text) (method : Method) (auth : Text) (d : Digest)
    → ProvesDigest cfg now method auth d
    → (check_digest cfg now fresh method auth d).1 ≡ accepted
unfolding check_digest check_params is_stale
check_digest_proved cfg now fresh method auth d (text, e, in_time, all, ours, answers) =
    let kv = parse_auth_params text in
    let fresh_nonce : ltb (cfg.auth_nonce_ttl_ms * 1_000_000) (now - d.created) ≡ false =
      ground arith in
    rw
      (
        e,
        fresh_nonce,
        starts_with-append (codes "Digest ") text,
        all_of cfg method kv d all,
        Ours-of cfg method kv d ours,
      )
      (response_of cfg method kv d answers)

pub check_basic_proved :
    (cfg : ServerConfig) (auth : Text) → ProvesBasic cfg auth → check_basic cfg auth ≡ accepted
unfolding check_basic
check_basic_proved cfg auth (secret, e, h) =
    rw
      (
        e,
        starts_with-append (codes "Basic ") secret,
        same-true (base64_decode secret) (cfg.auth_username ++ (b':' ∷ cfg.auth_password)) h,
      )
      refl
