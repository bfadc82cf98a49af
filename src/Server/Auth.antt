-- ===== src/Server/Auth.antt =====
-- `parseAuthParams` and the decisions of `checkAuthorization` in src/server/rtsp_server.cpp.
pub mod Replay
pub mod Proves
pub mod Basic
use rtsp_sdk.Common.{
  ℕ, zero, suc, ◌+◌, ◌-◌, ◌*◌, ◌%◌, ◌^◌, Bool, true, false, not, ◌&&◌, ◌||◌, Option, none, some, [],
  ◌∷◌, ◌++◌, length, take, drop, ltb, leb, ◌==◌, if◌then◌else◌,
}
use rtsp_sdk.Text.Chars.{Text, codes, is_space, is_digit, drop_while}
use rtsp_sdk.Text.Search.{same, starts_with, find_char, is_empty}
use rtsp_sdk.Text.Dict.{Dict, lookup, put}
use rtsp_sdk.Text.Base64.{base64_decode}
use rtsp_sdk.Text.Md5.{md5_hex}
use rtsp_sdk.Rtsp.Request.{Method, method_to_string, value_or_empty}
use rtsp_sdk.Server.Config.{ServerConfig}

abbrev pub is_separator : ℕ → Bool
is_separator c = c == 32 || c == b','

-- A value, and what is behind it; `none` where a closing quote is missing.
abbrev pub quoted : Text → Option ℕ → Option (Text × Text)
quoted s none = none
quoted s (some i) = some (take i s, drop (i + 1) s)

abbrev pub plain : Text → Option ℕ → Option (Text × Text)
plain s none = some (s, [])
plain s (some i) = some (take i s, drop (i + 1) s)

unfoldable pub read_value : Text → Option (Text × Text)
read_value [] = plain [] none
read_value (c ∷ s) =
    if c == b'"' then quoted s (find_char b'"' s) else plain (c ∷ s) (find_char b',' (c ∷ s))

-- A key and a value, and what is behind them; `none` ends the loop.
abbrev pub keyed : Text → Option (Text × Text) → Option (Text × Text × Text)
keyed key none = none
keyed key (some (v, rest)) = some (key, v, rest)

abbrev pub at_equals : Text → Option ℕ → Option (Text × Text × Text)
at_equals s none = none
at_equals s (some i) = keyed (take i s) (read_value (drop (i + 1) s))

unfoldable pub read_param : Text → Option (Text × Text × Text)
read_param s = let t = drop_while is_separator s in at_equals t (find_char b'=' t)

-- The loop; every round uses up an equals sign, so there is fuel for each character.
unfoldable pub params_loop : ℕ → Text → Dict Text → Dict Text
params_loop zero s kv = kv
params_loop (suc fuel) s kv = elim (read_param s) [
  | none ↦ kv
  | some p ↦ params_loop fuel p.2 (put p.0 p.1 kv)
]

unfoldable pub parse_auth_params : Text → Dict Text
parse_auth_params s = params_loop (suc (length s)) s []

unfoldable pub param : Text → Dict Text → Text
param key kv = value_or_empty (lookup key kv)

-- `std::stoull(s, nullptr, 16)`: blanks, a sign, a prefix, and the hexadecimal digits in front;
-- `none` is an exception.
unfoldable pub hex_value : ℕ → Option ℕ
hex_value c =
    if is_digit c
    then some (c - 48)
    else if leb b'a' c && leb c b'f'
    then some (c - 87)
    else if leb b'A' c && leb c b'F'
    then some (c - 55)
    else none

abbrev pub hex_step : Option ℕ → Option ℕ → ℕ
hex_step none acc = 0
hex_step (some d) none = d
hex_step (some d) (some acc) = acc * 16 + d

-- The value of the digits in front; `none` without any.
unfoldable pub hex_digits : Option ℕ → Text → Option ℕ
hex_digits acc [] = acc
hex_digits acc (c ∷ s) = elim (hex_value c) [
  | none ↦ acc
  | some d ↦ hex_digits (some (hex_step (some d) acc)) s
]

-- A prefix counts only in front of a digit; without one, its zero is a digit.
unfoldable pub hex_prefixed : Text → Option ℕ
hex_prefixed s =
    if starts_with (codes "0x") s || starts_with (codes "0X") s
    then hex_digits (some 0) (drop 2 s)
    else hex_digits none s

abbrev pub in_uint64 : Option ℕ → Option ℕ
in_uint64 none = none
in_uint64 (some v) = if ltb v (2 ^ 64) then some v else none

abbrev pub minus : Option ℕ → Option ℕ
minus none = none
minus (some v) = some ((2 ^ 64 - v) % 2 ^ 64)

unfoldable pub signed_hex : Text → Option ℕ
signed_hex [] = none
signed_hex (c ∷ s) =
    if c == b'-'
    then minus (in_uint64 (hex_prefixed s))
    else if c == b'+'
    then in_uint64 (hex_prefixed s)
    else in_uint64 (hex_prefixed (c ∷ s))

unfoldable pub parse_hex : Text → Option ℕ
parse_hex s = signed_hex (drop_while is_space s)

-- The outcome of a check: the request goes on, or the client is challenged, by Digest or by Basic,
-- with `stale` or without.
pub data Verdict : Type 0 where
  accepted : Verdict
  challenged : Bool → Bool → Verdict

-- `digest_nonce_`, `digest_nonce_created_` (in nanoseconds) and `digest_nc_seen_`.
pub record Digest : Type 0 where
  pub nonce : Text
  pub created : ℕ
  pub nc_seen : Dict ℕ

abbrev pub refused : Digest → Digest × Verdict
refused d = (d, challenged true false)

unfoldable pub ha1 : ServerConfig → Text
ha1 cfg = md5_hex (cfg.auth_username ++ (b':' ∷ (cfg.auth_realm ++ (b':' ∷ cfg.auth_password))))

unfoldable pub ha2 : Method → Text → Text
ha2 method uri = md5_hex (method_to_string method ++ (b':' ∷ uri))

unfoldable pub expected_qop : ServerConfig → Method → Dict Text → Text
expected_qop cfg method kv = md5_hex (
    ha1 cfg
    ++ (b':'
        ∷ (param (codes "nonce") kv
            ++ (b':'
                ∷ (param (codes "nc") kv
                    ++ (b':'
                        ∷ (param (codes "cnonce") kv
                            ++ (b':'
                                ∷ (param (codes "qop") kv
                                    ++ (b':' ∷ ha2 method (param (codes "uri") kv)))))))))))

unfoldable pub expected_plain : ServerConfig → Method → Dict Text → Text
expected_plain cfg method kv =
    md5_hex (
      ha1 cfg
      ++ (b':' ∷ (param (codes "nonce") kv ++ (b':' ∷ ha2 method (param (codes "uri") kv)))))

unfoldable pub compare_response : Text → Dict Text → Digest → Digest × Verdict
compare_response expected kv d =
    if same expected (param (codes "response") kv) then (d, accepted) else refused d

unfoldable pub nc_key : Dict Text → Text
nc_key kv =
    param (codes "username") kv
    ++ (b'|' ∷ (param (codes "cnonce") kv ++ (b'|' ∷ param (codes "nonce") kv)))

-- A count that is not above the last one.
abbrev pub is_replayed : ℕ → Option ℕ → Bool
is_replayed nc none = false
is_replayed nc (some last) = leb nc last

-- The count is noted before the response is compared.
unfoldable pub check_count :
    ServerConfig → Method → Dict Text → Digest → Option ℕ → Digest × Verdict
check_count cfg method kv d none = refused d
check_count cfg method kv d (some nc) =
    if is_replayed nc (lookup (nc_key kv) d.nc_seen)
    then refused d
    else compare_response (expected_qop cfg method kv) kv
        (record d { nc_seen = put (nc_key kv) nc d.nc_seen })

unfoldable pub check_response : ServerConfig → Method → Dict Text → Digest → Digest × Verdict
check_response cfg method kv d =
    if is_empty (param (codes "qop") kv)
    then compare_response (expected_plain cfg method kv) kv d
    else if is_empty (param (codes "nc") kv) || is_empty (param (codes "cnonce") kv)
    then refused d
    else check_count cfg method kv d (parse_hex (param (codes "nc") kv))

unfoldable pub has_all : Dict Text → Bool
has_all kv =
    not (is_empty (param (codes "username") kv))
    && (not (is_empty (param (codes "realm") kv))
        && (not (is_empty (param (codes "nonce") kv))
            && (not (is_empty (param (codes "uri") kv))
                && not (is_empty (param (codes "response") kv)))))

unfoldable pub is_ours : ServerConfig → Dict Text → Digest → Bool
is_ours cfg kv d =
    same (param (codes "username") kv) cfg.auth_username
    && (same (param (codes "realm") kv) cfg.auth_realm && same (param (codes "nonce") kv) d.nonce)

unfoldable pub check_params : ServerConfig → Method → Dict Text → Digest → Digest × Verdict
check_params cfg method kv d =
    if has_all kv && is_ours cfg kv d then check_response cfg method kv d else refused d

unfoldable pub is_stale : ServerConfig → ℕ → Digest → Bool
is_stale cfg now d = ltb (cfg.auth_nonce_ttl_ms * 1_000_000) (now - d.created)

-- `fresh` is what `generateNonce` gives.
unfoldable pub renew : ℕ → Text → Digest
renew now fresh = record { nonce = codes "nonce-" ++ fresh; created = now; nc_seen = [] }

unfoldable pub check_digest : ServerConfig → ℕ → Text → Method → Text → Digest → Digest × Verdict
check_digest cfg now fresh method auth d =
    if is_stale cfg now d
    then (renew now fresh, challenged true true)
    else if starts_with (codes "Digest ") auth
    then check_params cfg method (parse_auth_params (drop 7 auth)) d
    else refused d

unfoldable pub check_basic : ServerConfig → Text → Verdict
check_basic cfg auth =
    if starts_with (codes "Basic ") auth
      && same (base64_decode (drop 6 auth)) (cfg.auth_username ++ (b':' ∷ cfg.auth_password))
    then accepted
    else challenged false false
