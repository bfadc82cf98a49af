-- ===== src/Server/Connection/Describe/Announced.antt =====
-- The text of a DESCRIBE of src/server/rtsp_server.cpp, announced to a server again.
use rtsp_sdk.Common.{ℕ, ◌<◌, ◌^◌, ◌≡◌, ◌≢◌, refl, ap, ◌∙◌, ◌||◌, some, [], All, arith, if_on}
use rtsp_sdk.Common.Bytes.{IsByte}
use rtsp_sdk.Text.Chars.{Text, codes, Lacks, to_lower}
use rtsp_sdk.Text.Search.{is_empty, same, contains, find, starts_with}
use rtsp_sdk.Text.Base64.{base64_encode, base64_decode-base64_encode}
use rtsp_sdk.Text.Match.{base64_encode-IsCode, base64_encode-some}
use rtsp_sdk.Rtp.Frame.{CodecType, h264}
use rtsp_sdk.Sdp.Builder.{build}
use rtsp_sdk.Sdp.Parser.{new_media, parse, get_video_info}
use rtsp_sdk.Sdp.Texts.{described, not_empty}
use rtsp_sdk.Sdp.Attributes.{h264_info}
use rtsp_sdk.Sdp.RoundTrip.{parse-build_h264}
use rtsp_sdk.Server.Config.{PathConfig}
use rtsp_sdk.Server.Connection.{Env}
use rtsp_sdk.Server.Connection.Describe.{
  describe_sdp, sdp_ip, add_media, parse_announced, first_media, announced_media, announced_config,
  or_number,
}

pub sdp_ip-Lacks : (ip : Text) → Lacks 10 ip → Lacks 10 (sdp_ip ip)
unfolding sdp_ip
sdp_ip-Lacks ip h =
    if_on (Lacks 10) (is_empty ip || same ip (codes "0.0.0.0")) (codes "127.0.0.1") ip
      (ground arith) h

pub or_number-some : (v d : ℕ) → 0 < v → or_number v d ≡ v
or_number-some v d h = ground arith

-- What is announced by an H.264 medium that was read.
abbrev pub config_of : Text → PathConfig → PathConfig
config_of path c = record c { path = path; codec = h264; fps = 30; vps = [] }

announced_h264 :
    (path : Text) (c : PathConfig)
    → c.sps ≢ []
    → c.pps ≢ []
    → All IsByte c.sps
    → All IsByte c.pps
    → 0 < c.width
    → 0 < c.height
    → announced_media path (h264_info c.width c.height (base64_encode c.sps) (base64_encode c.pps))
      ≡ some (config_of path c, 96)
unfolding announced_media announced_config new_media contains find starts_with to_lower is_empty
announced_h264 path c s p bs bp w h =
    rw
      (
        not_empty (base64_encode c.sps) (base64_encode-some c.sps s),
        not_empty (base64_encode c.pps) (base64_encode-some c.pps p),
        base64_decode-base64_encode c.sps bs,
        base64_decode-base64_encode c.pps bp,
        or_number-some c.width 1920 w,
        or_number-some c.height 1080 h,
      )
      refl

describe_sdp-h264 :
    (env : Env) (c : PathConfig) (k : CodecType)
    → k ≡ h264
    → build (add_media k c (described env.seconds (sdp_ip env.local_ip)))
      ≡ build (add_media h264 c (described env.seconds (sdp_ip env.local_ip)))
describe_sdp-h264 env c k e =
    ap (λ x. build (add_media x c (described env.seconds (sdp_ip env.local_ip)))) e

-- What the server describes of an H.264 path with both parameter sets and a positive size of 32 bits,
-- it reads from an ANNOUNCE with the same text: the size and the sets, to the byte, payload type 96, and 30
-- frames per second, which the text does not tell.
pub parse_announced-describe_sdp :
    (env : Env) (path : Text) (c : PathConfig)
    → c.codec ≡ h264
    → c.sps ≢ []
    → c.pps ≢ []
    → All IsByte c.sps
    → All IsByte c.pps
    → (0 < c.width) × (c.width < 2 ^ 32)
    → (0 < c.height) × (c.height < 2 ^ 32)
    → Lacks 10 env.local_ip
    → parse_announced path (describe_sdp env c) ≡ some (config_of path c, 96)
unfolding parse_announced describe_sdp get_video_info
parse_announced-describe_sdp env path c e s p bs bp w h k =
    let sps = base64_encode c.sps in
    let pps = base64_encode c.pps in
    let read =
      parse-build_h264 c.width c.height sps pps (base64_encode-some c.sps s)
        (base64_encode-some c.pps p) (base64_encode-IsCode c.sps) (base64_encode-IsCode c.pps)
        env.seconds (sdp_ip env.local_ip) w.1 h.1 (sdp_ip-Lacks env.local_ip k) in
    ap (λ t. first_media path (parse t)) (describe_sdp-h264 env c c.codec e)
    ∙ (ap (first_media path) read ∙ announced_h264 path c s p bs bp w.0 h.0)
