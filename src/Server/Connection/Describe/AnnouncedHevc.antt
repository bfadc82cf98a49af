-- ===== src/Server/Connection/Describe/AnnouncedHevc.antt =====
-- The text of a DESCRIBE of an H.265 path of src/server/rtsp_server.cpp, announced to a server again.
use rtsp_sdk.Common.{◌<◌, ◌^◌, ◌≡◌, ◌≢◌, refl, ap, ◌∙◌, some, [], All}
use rtsp_sdk.Common.Bytes.{IsByte}
use rtsp_sdk.Text.Chars.{Text, Lacks, to_lower}
use rtsp_sdk.Text.Search.{is_empty, contains, find, starts_with}
use rtsp_sdk.Text.Base64.{base64_encode, base64_decode-base64_encode}
use rtsp_sdk.Text.Match.{base64_encode-IsCode, base64_encode-some}
use rtsp_sdk.Rtp.Frame.{h265}
use rtsp_sdk.Sdp.Builder.{build}
use rtsp_sdk.Sdp.Parser.{new_media, parse, get_video_info}
use rtsp_sdk.Sdp.Texts.{described, not_empty}
use rtsp_sdk.Sdp.Hevc.RoundTrip.{h265_info, parse-build_h265}
use rtsp_sdk.Server.Config.{PathConfig}
use rtsp_sdk.Server.Connection.{Env}
use rtsp_sdk.Server.Connection.Describe.{
  describe_sdp, sdp_ip, add_media, parse_announced, first_media, announced_media, announced_config,
}
use rtsp_sdk.Server.Connection.Describe.Announced.{sdp_ip-Lacks, or_number-some}

-- What is announced by an H.265 medium that was read.
abbrev pub hevc_config_of : Text → PathConfig → PathConfig
hevc_config_of path c = record c { path = path; codec = h265; fps = 30 }

announced_h265 :
    (path : Text) (c : PathConfig)
    → (c.vps ≢ []) × (c.sps ≢ []) × (c.pps ≢ [])
    → All IsByte c.vps
    → All IsByte c.sps
    → All IsByte c.pps
    → 0 < c.width
    → 0 < c.height
    → announced_media path (
        h265_info c.width c.height
          (base64_encode c.vps)
          (base64_encode c.sps)
          (base64_encode c.pps))
      ≡ some (hevc_config_of path c, 97)
unfolding announced_media announced_config new_media contains find starts_with to_lower is_empty
announced_h265 path c n bv bs bp w h =
    rw
      (
        not_empty (base64_encode c.vps) (base64_encode-some c.vps n.0),
        not_empty (base64_encode c.sps) (base64_encode-some c.sps n.1),
        not_empty (base64_encode c.pps) (base64_encode-some c.pps n.2),
        base64_decode-base64_encode c.vps bv,
        base64_decode-base64_encode c.sps bs,
        base64_decode-base64_encode c.pps bp,
        or_number-some c.width 1920 w,
        or_number-some c.height 1080 h,
      )
      refl

-- What the server describes of an H.265 path with its three parameter sets and a positive size of 32
-- bits, it reads from an ANNOUNCE with the same text: the size and the sets, to the byte, payload type 97, and
-- 30 frames per second, which the text does not tell.
pub parse_announced-describe_sdp_h265 :
    (env : Env) (path : Text) (c : PathConfig)
    → c.codec ≡ h265
    → (c.vps ≢ []) × (c.sps ≢ []) × (c.pps ≢ [])
    → All IsByte c.vps
    → All IsByte c.sps
    → All IsByte c.pps
    → (0 < c.width) × (c.width < 2 ^ 32)
    → (0 < c.height) × (c.height < 2 ^ 32)
    → Lacks 10 env.local_ip
    → parse_announced path (describe_sdp env c) ≡ some (hevc_config_of path c, 97)
unfolding parse_announced describe_sdp get_video_info
parse_announced-describe_sdp_h265 env path c e n bv bs bp w h k =
    let head = described env.seconds (sdp_ip env.local_ip) in
    let read =
      parse-build_h265 c.width c.height (base64_encode c.vps) (base64_encode c.sps)
        (base64_encode c.pps) (base64_encode-some c.vps n.0) (base64_encode-some c.sps n.1)
        (base64_encode-some c.pps n.2) (base64_encode-IsCode c.vps) (base64_encode-IsCode c.sps)
        (base64_encode-IsCode c.pps) env.seconds (sdp_ip env.local_ip) w.1 h.1
        (sdp_ip-Lacks env.local_ip k) in
    ap (λ x. first_media path (parse (build (add_media x c head)))) e
    ∙ (ap (first_media path) read ∙ announced_h265 path c n bv bs bp w.0 h.0)
