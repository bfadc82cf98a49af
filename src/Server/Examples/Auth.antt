-- ===== src/Server/Examples/Auth.antt =====
-- The theorems on authentication at concrete inputs.
use rtsp_sdk.Common.{◌⊎◌, ◌∷◌, ◌≡◌, refl, true, false, [], ◌++◌, drop, if◌then◌else◌, arith}
use rtsp_sdk.Common.Bytes.{le32, read_le32}
use rtsp_sdk.Text.Chars.{Text, codes}
use rtsp_sdk.Text.Search.{same, starts_with}
use rtsp_sdk.Text.Base64.{base64_encode}
use rtsp_sdk.Text.Dict.{lookup}
use rtsp_sdk.Rtsp.Request.{Request, describe, new_request}
use rtsp_sdk.Server.Config.{default_config, ServerConfig}
use rtsp_sdk.Server.Paths.{Server}
use rtsp_sdk.Text.Search.{before, is_empty, find_char}
use rtsp_sdk.Text.Dict.{put}
use rtsp_sdk.Text.Chars.{drop_while, is_digit, is_space}
use rtsp_sdk.Text.Md5.{
  md5_hex, padded, zero_padding, le_bytes, round_f, round_g, word_of, round, rounds_from, add_words,
  blocks, hex_digit, hex_bytes, first_words, bitwise, left_rotate, shift_table, sine_table,
}
use rtsp_sdk.Rtsp.Request.{method_to_string}
use rtsp_sdk.Server.Auth.{
  Digest, check_digest, check_params, check_response, check_count, compare_response, expected_qop,
  ha1, ha2, nc_key, parse_hex, signed_hex, hex_prefixed, hex_digits, hex_value, has_all, is_ours,
  is_stale, param, parse_auth_params, params_loop, read_param, read_value,
}
use rtsp_sdk.Server.Auth.Replay.{Refused, check_digest-replay}
use rtsp_sdk.Server.Auth.{accepted, challenged, check_basic}
use rtsp_sdk.Server.Auth.Basic.{credentials, check_basic-base64_encode}
use rtsp_sdk.Server.Connection.Requests.{serve}
use rtsp_sdk.Server.Connection.Guarded.{Blocked, Proves, Served, serve-Proves}
use rtsp_sdk.Server.Examples.{an_env, empty_server, connected, describe_request}

abbrev guarded_config : ServerConfig
guarded_config = record default_config {
  auth_enabled = true;
  auth_username = codes "me";
  auth_password = codes "pw";
}

check_basic-base64_encode_example :
    check_basic guarded_config (codes "Basic " ++ base64_encode (codes "me:pw")) ≡ (
      if same (codes "me:pw") (credentials guarded_config)
      then accepted
      else challenged false false)
check_basic-base64_encode_example =
    check_basic-base64_encode guarded_config (codes "me:pw") (ground arith)

abbrev guarded_server : Server
guarded_server = record empty_server { config = guarded_config }

abbrev authorized_request : Request
authorized_request = record describe_request {
  headers = (codes "authorization", codes "Basic " ++ base64_encode (codes "me:pw")) ∷ [];
}

serve-Proves_example :
    (¬ Proves an_env authorized_request (connected guarded_server)
      × Blocked
          (connected guarded_server)
          (serve an_env authorized_request (connected guarded_server)))
    ⊎ (Proves an_env authorized_request (connected guarded_server)
        × Served an_env authorized_request
            (connected guarded_server)
            (serve an_env authorized_request (connected guarded_server)))
unfolding default_config new_request
serve-Proves_example =
    serve-Proves an_env authorized_request (connected guarded_server) refl (λ e. cc)

abbrev digest_header : Text
digest_header =
    codes
      "Digest username=\"me\",realm=\"RTSP Server\",nonce=\"abcd\",uri=\"/live\",qop=auth,nc=00000001,cnonce=\"c1\",response=\"78287ee1b22c4aed2f8efa6825711571\""

abbrev first_digest : Digest
first_digest = record { nonce = codes "abcd"; created = 0; nc_seen = [] }

digest_accepted :
    (check_digest guarded_config 5_000_000_000 (codes "new") describe digest_header first_digest).1
    ≡ accepted
unfolding check_digest check_params check_response check_count compare_response expected_qop ha1 ha2
    nc_key parse_hex signed_hex hex_prefixed hex_digits hex_value has_all is_ours is_stale
    parse_auth_params params_loop read_param read_value lookup put before same is_empty starts_with
    find_char drop_while is_digit is_space default_config method_to_string md5_hex padded
    zero_padding le_bytes round_f round_g word_of round rounds_from add_words blocks hex_digit
    hex_bytes first_words bitwise left_rotate shift_table sine_table param le32 read_le32
digest_accepted = refl

qop_there : is_empty (param (codes "qop") (parse_auth_params (drop 7 digest_header))) ≡ false
unfolding parse_auth_params params_loop read_param read_value lookup put before same is_empty
    find_char drop_while param
qop_there = refl

check_digest-replay_example : Refused (
    check_digest guarded_config 6_000_000_000
      (codes "newer")
      describe
      digest_header
      (check_digest guarded_config 5_000_000_000
        (codes "new")
        describe
        digest_header
        first_digest).0)
check_digest-replay_example =
    check_digest-replay guarded_config describe digest_header first_digest 5_000_000_000
      6_000_000_000 (codes "new") (codes "newer") qop_there digest_accepted
