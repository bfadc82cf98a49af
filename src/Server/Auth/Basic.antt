-- ===== src/Server/Auth/Basic.antt =====
-- Basic authentication of src/server/rtsp_server.cpp.
use rtsp_sdk.Common.{◌≡◌, refl, false, ◌∷◌, ◌++◌, All, if◌then◌else◌}
use rtsp_sdk.Common.Bytes.{IsByte}
use rtsp_sdk.Text.Chars.{Text, codes}
use rtsp_sdk.Text.Search.{same, starts_with-append}
use rtsp_sdk.Text.Base64.{base64_encode, base64_decode-base64_encode}
use rtsp_sdk.Server.Config.{ServerConfig}
use rtsp_sdk.Server.Auth.{check_basic, accepted, challenged}

abbrev pub credentials : ServerConfig → Text
credentials cfg = cfg.auth_username ++ (b':' ∷ cfg.auth_password)

-- A header with "Basic " in front and the encoding of some bytes is decided by these bytes: it is
-- accepted if they are the configured user and password, and challenged otherwise.
pub check_basic-base64_encode :
    (cfg : ServerConfig) (text : Text)
    → All IsByte text
    → check_basic cfg (codes "Basic " ++ base64_encode text)
      ≡ (if same text (credentials cfg) then accepted else challenged false false)
unfolding check_basic
check_basic-base64_encode cfg text h =
    rw
      (starts_with-append (codes "Basic ") (base64_encode text), base64_decode-base64_encode text h)
      refl
