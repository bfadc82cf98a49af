-- ===== src/Server/Auth/Replay.antt =====
-- Replayed counts in the Digest authentication of src/server/rtsp_server.cpp.
use rtsp_sdk.Common.{
  ℕ, ◌≡◌, ◌≢◌, refl, sym, subst, ap, ◌∙◌, Bool, true, false, ◌&&◌, ◌||◌, Option, none, some,
  if◌then◌else◌, arith, Bool-cases, inl, inr, drop,
}
use rtsp_sdk.Text.Chars.{Text, codes}
use rtsp_sdk.Text.Search.{is_empty, starts_with}
use rtsp_sdk.Text.Dict.{lookup, put, Dict, lookup-put_self}
use rtsp_sdk.Rtsp.Request.{Method}
use rtsp_sdk.Server.Config.{ServerConfig}
use rtsp_sdk.Server.Auth.{
  Digest, Verdict, accepted, challenged, refused, check_digest, check_params, check_response,
  check_count, compare_response, is_replayed, is_stale, is_ours, has_all, nc_key, parse_hex, param,
  parse_auth_params, expected_qop, expected_plain, renew,
}

abbrev pub Refused : Digest × Verdict → Type 0
Refused r = (stale : Bool) × (r.1 ≡ challenged true stale)

-- A test whose other branch would not be accepted has gone this way.
then_taken :
    (b : Bool) (x y : Digest × Verdict)
    → (if b then x else y).1 ≡ accepted
    → y.1 ≢ accepted
    → (if b then x else y) ≡ x
then_taken true x y h n = refl
then_taken false x y h n = absurd (n h)

else_taken :
    (b : Bool) (x y : Digest × Verdict)
    → (if b then x else y).1 ≡ accepted
    → x.1 ≢ accepted
    → (if b then x else y) ≡ y
else_taken true x y h n = absurd (n h)
else_taken false x y h n = refl

module _ (cfg : ServerConfig) (method : Method) (kv : Dict Text) where
  abbrev qop_branch : Digest → Digest × Verdict
  qop_branch d =
      if is_empty (param (codes "nc") kv) || is_empty (param (codes "cnonce") kv)
      then refused d
      else check_count cfg method kv d (parse_hex (param (codes "nc") kv))

  compare_response-nc : (expected : Text) (d : Digest) → (compare_response expected kv d).0 ≡ d
  unfolding compare_response
  compare_response-nc expected d = ground arith

  replayed :
      (nc : ℕ) (d : Digest)
      → is_replayed nc (lookup (nc_key kv) d.nc_seen) ≡ true
      → check_count cfg method kv d (some nc) ≡ refused d
  unfolding check_count
  replayed nc d y = rw y refl

  counted :
      (nc : ℕ) (d : Digest)
      → is_replayed nc (lookup (nc_key kv) d.nc_seen) ≡ false
      → (check_count cfg method kv d (some nc)).0
        ≡ record d { nc_seen = put (nc_key kv) nc d.nc_seen }
  unfolding check_count
  counted nc d n = rw n (compare_response-nc (expected_qop cfg method kv) _)

  noted :
      (nc : ℕ) (d : Digest)
      → is_replayed nc
          (lookup (nc_key kv) (record d { nc_seen = put (nc_key kv) nc d.nc_seen }).nc_seen)
        ≡ true
  noted nc d = ap (is_replayed nc) (lookup-put_self (nc_key kv) nc d.nc_seen) ∙ ground arith

  -- After a count was looked at, it is refused.
  count_again :
      (nc : Option ℕ) (d : Digest)
      → Refused (check_count cfg method kv (check_count cfg method kv d nc).0 nc)
  unfolding check_count
  count_again none d = (false, refl)
  count_again (some nc) d = elim (Bool-cases (is_replayed nc (lookup (nc_key kv) d.nc_seen))) [
    | inl y ↦
        let same_d : (check_count cfg method kv d (some nc)).0 ≡ d =
          ap (λ r. r.0) (replayed nc d y) in
        subst (λ x. Refused (check_count cfg method kv x (some nc))) (sym same_d)
          (subst Refused (sym (replayed nc d y)) (false, refl))
    | inr n ↦
        subst (λ x. Refused (check_count cfg method kv x (some nc))) (sym (counted nc d n))
          (subst Refused (sym (replayed nc _ (noted nc d))) (false, refl))
  ]

  -- Whatever the fields, a check with that state is refused if its count is.
  params_again :
      (d : Digest)
      → is_empty (param (codes "qop") kv) ≡ false
      → Refused (check_count cfg method kv d (parse_hex (param (codes "nc") kv)))
      → Refused (check_params cfg method kv d)
  unfolding check_params check_response
  params_again d q r = elim (Bool-cases (has_all kv && is_ours cfg kv d)) [
    | inr n ↦ rw n (false, refl)
    | inl y ↦
        rw (y, q)
          (elim (Bool-cases
            (is_empty (param (codes "nc") kv) || is_empty (param (codes "cnonce") kv))) [
              | inl e ↦ rw e (false, refl)
              | inr k ↦ rw k r
            ])
  ]

  past_params :
      (d : Digest)
      → (check_params cfg method kv d).1 ≡ accepted
      → check_params cfg method kv d ≡ check_response cfg method kv d
  unfolding check_params
  past_params d h = then_taken (has_all kv && is_ours cfg kv d) _ (refused d) h (λ e. cc)

  past_response :
      (d : Digest)
      → is_empty (param (codes "qop") kv) ≡ false
      → (check_response cfg method kv d).1 ≡ accepted
      → check_response cfg method kv d
        ≡ check_count cfg method kv d (parse_hex (param (codes "nc") kv))
  unfolding check_response
  past_response d q h =
      let at : check_response cfg method kv d ≡ qop_branch d =
        ap (λ b. if b then compare_response (expected_plain cfg method kv) kv d else qop_branch d)
          q in
      at
      ∙ else_taken (is_empty (param (codes "nc") kv) || is_empty (param (codes "cnonce") kv))
          (refused d) _ (ap (λ r. r.1) (sym at) ∙ h) (λ e. cc)

  -- An accepted check has noted its count.
  accepted-count :
      (d : Digest)
      → is_empty (param (codes "qop") kv) ≡ false
      → (check_params cfg method kv d).1 ≡ accepted
      → check_params cfg method kv d
        ≡ check_count cfg method kv d (parse_hex (param (codes "nc") kv))
  accepted-count d q h =
      let one = past_params d h in one ∙ past_response d q (ap (λ r. r.1) (sym one) ∙ h)

module _ (cfg : ServerConfig) (method : Method) (auth : Text) where
  abbrev params : Dict Text
  params = parse_auth_params (drop 7 auth)

  past_digest :
      (d : Digest) (now : ℕ) (fresh : Text)
      → (check_digest cfg now fresh method auth d).1 ≡ accepted
      → check_digest cfg now fresh method auth d ≡ check_params cfg method params d
  unfolding check_digest
  past_digest d now fresh h =
      let one =
        else_taken (is_stale cfg now d) (renew now fresh, challenged true true) _ h (λ e. cc) in
      one
      ∙ then_taken (starts_with (codes "Digest ") auth) _ (refused d) (ap (λ r. r.1) (sym one) ∙ h)
          (λ e. cc)

  digest_again :
      (e : Digest) (later : ℕ) (fresher : Text)
      → Refused (check_params cfg method params e)
      → Refused (check_digest cfg later fresher method auth e)
  unfolding check_digest
  digest_again e later fresher r = elim (Bool-cases (is_stale cfg later e)) [
    | inl y ↦ rw y (true, refl)
    | inr n ↦ rw n (elim (Bool-cases (starts_with (codes "Digest ") auth)) [
      | inl y ↦ rw y r
      | inr k ↦ rw k (false, refl)
    ])
  ]

-- A Digest header with a qop that was accepted is refused when it comes next on the connection,
-- whenever that is.
pub check_digest-replay :
    (cfg : ServerConfig) (method : Method) (auth : Text) (d : Digest) (now later : ℕ)
    (fresh fresher : Text)
    → is_empty (param (codes "qop") (parse_auth_params (drop 7 auth))) ≡ false
    → (check_digest cfg now fresh method auth d).1 ≡ accepted
    → Refused
        (check_digest cfg later fresher method auth (check_digest cfg now fresh method auth d).0)
check_digest-replay cfg method auth d now later fresh fresher q h =
    let kv = params cfg method auth in
    let nc = parse_hex (param (codes "nc") kv) in
    let one = past_digest cfg method auth d now fresh h in
    let two = accepted-count cfg method kv d q (ap (λ r. r.1) (sym one) ∙ h) in
    let state : (check_digest cfg now fresh method auth d).0 ≡ (check_count cfg method kv d nc).0 =
      ap (λ r. r.0) (one ∙ two) in
    subst (λ e. Refused (check_digest cfg later fresher method auth e)) (sym state)
      (digest_again cfg method auth (check_count cfg method kv d nc).0 later fresher (
        params_again cfg method kv (check_count cfg method kv d nc).0 q
          (count_again cfg method kv nc d)))
