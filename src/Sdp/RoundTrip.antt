-- ===== src/Sdp/RoundTrip.antt =====
-- What `SdpParser` of src/rtsp-common/sdp.cpp reads from an H.264 description of `SdpBuilder`.
use rtsp_sdk.Common.{
  ℕ, ◌<◌, ◌^◌, ◌≡◌, ◌≢◌, refl, ap, ◌∙◌, false, List, [], ◌∷◌, ◌++◌, All, All-append,
}
use rtsp_sdk.Text.Chars.{Text, codes, Lacks}
use rtsp_sdk.Text.Search.{starts_with}
use rtsp_sdk.Text.Lines.{lines-written}
use rtsp_sdk.Text.Match.{IsCode}
use rtsp_sdk.Sdp.Builder.{add_h264_media, build}
use rtsp_sdk.Sdp.Parser.{
  MediaInfo, new_media, read_attribute, read_line, read_lines, on_last, parse,
}
use rtsp_sdk.Sdp.Texts.{
  cliprect_text, framesize_text, fmtp_text, media_lines, head_lines, described, build-written,
  media_lines-Lacks, head_lines-Lacks,
}
use rtsp_sdk.Sdp.Attributes.{
  named, h264_info, media_first, rtpmap_second, clip_attribute, size_attribute, fmtp_in-fmtp_text,
}

pub control_last : (m : MediaInfo) → read_attribute (codes "a=control:stream") m ≡ m
unfolding read_attribute starts_with
control_last m = refl

pub on_one :
    (m n : MediaInfo) (line : Text)
    → starts_with (codes "m=video") line ≡ false
    → read_attribute line m ≡ n
    → read_line (m ∷ []) line ≡ n ∷ []
unfolding read_line on_last
on_one m n line other e = rw (other, e) refl

pub read_head_lines :
    (seconds : ℕ) (ip : Text) (ls : List Text)
    → read_lines [] (head_lines seconds ip ++ ls) ≡ read_lines [] ls
unfolding read_lines read_line on_last starts_with
read_head_lines seconds ip ls = refl

module _ (w h : ℕ) (sps pps : Text) (some_sps : sps ≢ []) (some_pps : pps ≢ [])
    (hs : All IsCode sps) (hp : All IsCode pps) where
  abbrev with_sets : MediaInfo
  with_sets = record named { sps = sps; pps = pps; vps = [] }

  abbrev sized : MediaInfo
  sized = record with_sets { width = w; height = h }

  fmtp_third : read_attribute (fmtp_text sps pps) named ≡ with_sets
  unfolding read_attribute starts_with new_media
  fmtp_third = fmtp_in-fmtp_text sps pps some_sps some_pps hs hp named refl

  read_first :
      read_line [] (codes "m=video 0 RTP/AVP 96") ≡ (record new_media { payload_type = 96 }) ∷ []
  unfolding read_line starts_with
  read_first = rw media_first refl

  read_media_lines :
      w < 2 ^ 32 → h < 2 ^ 32 → read_lines [] (media_lines w h sps pps) ≡ h264_info w h sps pps ∷ []
  unfolding read_lines starts_with new_media
  read_media_lines hw hh =
      rw
        (
          read_first,
          on_one (record new_media { payload_type = 96 }) named (codes "a=rtpmap:96 H264/90000")
              refl rtpmap_second,
          on_one named with_sets (fmtp_text sps pps) refl fmtp_third,
          on_one with_sets sized (cliprect_text w h) refl
              (clip_attribute w h with_sets hw hh refl refl),
          on_one sized sized (framesize_text w h) refl (size_attribute w h sized hw hh),
          on_one sized sized (codes "a=control:stream") refl (control_last sized),
        )
        refl

  -- From the description of an H.264 medium as the server builds it, the parser reads the codec, the
  -- payload type and the clock rate, the size and both parameter sets.
  pub parse-build_h264 :
      (seconds : ℕ) (ip : Text)
      → w < 2 ^ 32
      → h < 2 ^ 32
      → Lacks 10 ip
      → parse
          (build (add_h264_media (codes "stream") 0 96 90000 sps pps w h (described seconds ip)))
        ≡ h264_info w h sps pps ∷ []
  unfolding parse
  parse-build_h264 seconds ip hw hh k =
      let ls = head_lines seconds ip ++ media_lines w h sps pps in
      ap parse (build-written seconds w h ip sps pps some_sps)
      ∙ (ap (read_lines []) (
            lines-written ls (
              All-append (Lacks 10) (head_lines seconds ip) (media_lines w h sps pps)
                (head_lines-Lacks seconds ip k) (media_lines-Lacks w h sps pps hs hp)))
          ∙ (read_head_lines seconds ip (media_lines w h sps pps) ∙ read_media_lines hw hh))
