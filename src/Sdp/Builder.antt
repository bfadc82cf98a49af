-- ===== src/Sdp/Builder.antt =====
-- `SdpBuilder` of src/rtsp-common/sdp.cpp. The stream is the text so far.
use rtsp_sdk.Common.{ℕ, Bool, true, false, not, ◌||◌, [], ◌∷◌, ◌++◌, if◌then◌else◌}
use rtsp_sdk.Text.Chars.{Text, codes}
use rtsp_sdk.Text.Search.{is_empty}
use rtsp_sdk.Text.Lines.{crlf}
use rtsp_sdk.Text.Numbers.{digits}
use rtsp_sdk.Rtp.Frame.{CodecType, h264, h265}

pub record SdpBuilder : Type 0 where
  pub sdp : Text
  pub media_started : Bool

unfoldable pub put_text : Text → SdpBuilder → SdpBuilder
put_text t b = record b { sdp = b.sdp ++ t }

-- `setVersion` begins anew.
unfoldable pub set_version : ℕ → SdpBuilder → SdpBuilder
set_version v b = record b { sdp = codes "v=" ++ (digits v ++ crlf) }

unfoldable pub set_origin : Text → ℕ → ℕ → Text → Text → Text → SdpBuilder → SdpBuilder
set_origin username sess_id sess_version net_type addr_type address b =
    put_text
      (codes "o="
        ++ (username
            ++ (32
                ∷ (digits sess_id
                    ++ (32
                        ∷ (digits sess_version
                            ++ (32
                                ∷ (net_type
                                    ++ (32 ∷ (addr_type ++ (32 ∷ (address ++ crlf))))))))))))
      b

unfoldable pub set_session_name : Text → SdpBuilder → SdpBuilder
set_session_name name b = put_text (codes "s=" ++ (name ++ crlf)) b

unfoldable pub set_connection : Text → Text → Text → SdpBuilder → SdpBuilder
set_connection net_type addr_type address b =
    put_text (codes "c=" ++ (net_type ++ (32 ∷ (addr_type ++ (32 ∷ (address ++ crlf)))))) b

unfoldable pub set_time : ℕ → ℕ → SdpBuilder → SdpBuilder
set_time start_time stop_time b =
    put_text (codes "t=" ++ (digits start_time ++ (32 ∷ (digits stop_time ++ crlf)))) b

unfoldable pub add_attribute : Text → Text → SdpBuilder → SdpBuilder
add_attribute name value b =
    put_text (codes "a=" ++ (name ++ ((if is_empty value then [] else b':' ∷ value) ++ crlf))) b

-- The constructor, at a time in seconds.
unfoldable pub new_builder : ℕ → SdpBuilder
new_builder sess_id = set_time 0 0 (
    set_session_name (codes "RTSP Stream") (
      set_origin (codes "-") sess_id sess_id (codes "IN") (codes "IP4") (codes "127.0.0.1")
        (set_version 0 (record { sdp = []; media_started = false }))))

unfoldable pub media_line : ℕ → ℕ → Text
media_line port payload_type =
    codes "m=video " ++ (digits port ++ (codes " RTP/AVP " ++ (digits payload_type ++ crlf)))

abbrev pub codec_text : CodecType → Text
codec_text h264 = codes " H264/"
codec_text h265 = codes " H265/"

unfoldable pub rtpmap_line : CodecType → ℕ → ℕ → Text
rtpmap_line codec payload_type clock_rate =
    codes "a=rtpmap:" ++ (digits payload_type ++ (codec_text codec ++ (digits clock_rate ++ crlf)))

unfoldable pub fmtp_h264 : ℕ → Text → Text → Text
fmtp_h264 payload_type sps pps =
    codes "a=fmtp:"
    ++ (digits payload_type
        ++ (codes " packetization-mode=1"
            ++ ((if is_empty sps
                  then []
                  else codes ";sprop-parameter-sets=" ++ (sps ++ (b',' ∷ pps)))
                ++ crlf)))

abbrev pub semicolon_if : Bool → Text
semicolon_if true = b';' ∷ []
semicolon_if false = []

unfoldable pub fmtp_h265 : ℕ → Text → Text → Text → Text
fmtp_h265 payload_type vps sps pps =
    codes "a=fmtp:"
    ++ (digits payload_type
        ++ (32
            ∷ ((if is_empty sps then [] else codes "sprop-sps=" ++ sps)
                ++ ((if is_empty pps
                      then []
                      else semicolon_if (not (is_empty sps)) ++ (codes "sprop-pps=" ++ pps))
                    ++ ((if is_empty vps
                          then []
                          else semicolon_if (not (is_empty sps) || not (is_empty pps))
                            ++ (codes "sprop-vps=" ++ vps))
                        ++ crlf)))))

unfoldable pub cliprect_line : ℕ → ℕ → Text
cliprect_line width height =
    codes "a=cliprect:0,0," ++ (digits height ++ (b',' ∷ (digits width ++ crlf)))

unfoldable pub framesize_line : ℕ → ℕ → ℕ → Text
framesize_line payload_type width height =
    codes "a=framesize:"
    ++ (digits payload_type ++ (32 ∷ (digits width ++ (b'-' ∷ (digits height ++ crlf)))))

unfoldable pub control_line : Text → Text
control_line control = codes "a=control:" ++ (control ++ crlf)

unfoldable pub add_h264_media : Text → ℕ → ℕ → ℕ → Text → Text → ℕ → ℕ → SdpBuilder → SdpBuilder
add_h264_media control port payload_type clock_rate sps pps width height b =
    put_text
      (media_line port payload_type
        ++ (rtpmap_line h264 payload_type clock_rate
            ++ (fmtp_h264 payload_type sps pps
                ++ (cliprect_line width height
                    ++ (framesize_line payload_type width height ++ control_line control)))))
      (record b { media_started = true })

unfoldable pub add_h265_media :
    Text → ℕ → ℕ → ℕ → Text → Text → Text → ℕ → ℕ → SdpBuilder → SdpBuilder
add_h265_media control port payload_type clock_rate vps sps pps width height b =
    put_text
      (media_line port payload_type
        ++ (rtpmap_line h265 payload_type clock_rate
            ++ (fmtp_h265 payload_type vps sps pps
                ++ (framesize_line payload_type width height ++ control_line control))))
      (record b { media_started = true })

unfoldable pub build : SdpBuilder → Text
build b = b.sdp
