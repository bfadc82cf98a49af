-- ===== src/Sdp/Hevc/RoundTrip.antt =====
-- The whole H.265 description of src/rtsp-common/sdp.cpp, written and read.
use rtsp_sdk.Common.{
  ℕ, ◌<◌, ◌^◌, ◌≡◌, ◌≢◌, refl, ap, ◌∙◌, some, List, [], ◌∷◌, ◌++◌, append_assoc, All, All-append,
  arith,
}
use rtsp_sdk.Text.Chars.{
  Text, codes, Lacks, is_digit, is_space, to_lower, to_upper, trim, drop_end, cons_unless,
  take_while, drop_while,
}
use rtsp_sdk.Text.Search.{starts_with, contains, find}
use rtsp_sdk.Text.Lines.{written, lines-written}
use rtsp_sdk.Text.Numbers.{
  digits, digits_on, parse_uint32_safe, trim_copy, unsigned_value, if_below, value, value_on,
}
use rtsp_sdk.Text.Patterns.{literal, many, blanks, number, search, is_name_char}
use rtsp_sdk.Text.Match.{IsCode, Stops, many-Within, search_first, parse_uint32_safe-digits}
use rtsp_sdk.Rtp.Frame.{h265}
use rtsp_sdk.Sdp.Builder.{
  put_text, set_version, set_origin, set_session_name, set_connection, set_time, media_line,
  rtpmap_line, fmtp_h265, framesize_line, control_line, add_h265_media, build,
}
use rtsp_sdk.Sdp.Parser.{
  MediaInfo, new_media, media_of, media_pattern, set_payload_type, rtpmap_pattern, set_rtpmap,
  codec_named, framesize_pattern, set_size, read_attribute, read_line, read_lines, parse,
}
use rtsp_sdk.Sdp.Texts.{
  head_lines, described, head_lines-Lacks, not_empty, digits_0, digits_90000, plain_after,
  number_line, code_line,
}
use rtsp_sdk.Sdp.Attributes.{framesize_pattern-payload}
use rtsp_sdk.Sdp.RoundTrip.{on_one, control_last, read_head_lines}
use rtsp_sdk.Sdp.Hevc.{hevc_fmtp_text, fmtp_in-hevc_fmtp_text}

digits_97 : digits 97 ≡ codes "97"
unfolding digits digits_on
digits_97 = refl

abbrev hevc_framesize_text : ℕ → ℕ → Text
hevc_framesize_text w h = codes "a=framesize:97 " ++ (digits w ++ (b'-' ∷ digits h))

abbrev hevc_lines : ℕ → ℕ → Text → Text → Text → List Text
hevc_lines w h vps sps pps =
    codes "m=video 0 RTP/AVP 97"
    ∷ codes "a=rtpmap:97 H265/90000"
    ∷ hevc_fmtp_text vps sps pps
    ∷ hevc_framesize_text w h
    ∷ codes "a=control:stream"
    ∷ []

-- What is known of the medium behind its line and its rtpmap.
abbrev pub hevc_named : MediaInfo
hevc_named = record new_media {
  codec = h265;
  payload_name = codes "H265";
  payload_type = 97;
  clock_rate = 90000;
}

abbrev pub h265_info : ℕ → ℕ → Text → Text → Text → MediaInfo
h265_info w h vps sps pps = record hevc_named {
  width = w;
  height = h;
  sps = sps;
  pps = pps;
  vps = vps;
}

hevc_first : media_of (codes "m=video 0 RTP/AVP 97") ≡ record new_media { payload_type = 97 }
unfolding media_of search media_pattern literal blanks number many take_while drop_while is_digit
    is_space starts_with to_lower set_payload_type parse_uint32_safe trim_copy trim drop_end
    cons_unless unsigned_value if_below value value_on new_media
hevc_first = refl

hevc_second :
    read_attribute (codes "a=rtpmap:97 H265/90000") (record new_media { payload_type = 97 })
    ≡ hevc_named
unfolding read_attribute search rtpmap_pattern literal blanks number many take_while drop_while
    is_digit is_space is_name_char starts_with to_lower to_upper set_rtpmap parse_uint32_safe
    trim_copy trim drop_end cons_unless unsigned_value if_below value value_on new_media codec_named
    contains find
hevc_second = refl

ninety_seven :
    (rest : Text) → Stops is_digit rest → number (codes "97" ++ rest) ≡ some (codes "97", rest)
unfolding number is_digit
ninety_seven rest h = many-Within is_digit (codes "97") rest (λ e. cc) (refl, (refl, tt)) h

hevc_size :
    (w h : ℕ) (m : MediaInfo)
    → w < 2 ^ 32
    → h < 2 ^ 32
    → read_attribute (hevc_framesize_text w h) m ≡ record m { width = w; height = h }
unfolding read_attribute starts_with set_size
hevc_size w h m hw hh =
    rw
      (
        search_first framesize_pattern (hevc_framesize_text w h) (digits w, digits h)
            (framesize_pattern-payload (codes "97") w h ninety_seven),
        parse_uint32_safe-digits w hw,
        parse_uint32_safe-digits h hh,
      )
      refl

read_first :
    read_line [] (codes "m=video 0 RTP/AVP 97") ≡ (record new_media { payload_type = 97 }) ∷ []
unfolding read_line starts_with
read_first = rw hevc_first refl

module _ (w h : ℕ) (vps sps pps : Text) (some_vps : vps ≢ []) (some_sps : sps ≢ [])
    (some_pps : pps ≢ []) (hv : All IsCode vps) (hs : All IsCode sps) (hp : All IsCode pps) where
  build-hevc_lines :
      (seconds : ℕ) (ip : Text)
      → build (add_h265_media (codes "stream") 0 97 90000 vps sps pps w h (described seconds ip))
        ≡ written (head_lines seconds ip ++ hevc_lines w h vps sps pps)
  unfolding build add_h265_media put_text set_version set_origin set_session_name set_connection
      set_time media_line rtpmap_line fmtp_h265 framesize_line control_line written
  build-hevc_lines seconds ip =
      rw
        (
          digits_0,
          digits_97,
          digits_90000,
          not_empty sps some_sps,
          not_empty pps some_pps,
          not_empty vps some_vps,
        )
        (simp append_assoc)

  hevc_lines-Lacks : All (Lacks 10) (hevc_lines w h vps sps pps)
  hevc_lines-Lacks = (
    ground arith,
    (
      ground arith,
      (
        plain_after (codes "a=fmtp:97 sprop-sps=") sps
            (codes ";sprop-pps=" ++ (pps ++ (codes ";sprop-vps=" ++ vps))) (ground arith)
            (code_line sps hs)
            (plain_after (codes ";sprop-pps=") pps (codes ";sprop-vps=" ++ vps) (ground arith)
              (code_line pps hp)
              (All-append (λ d. d ≢ 10) (codes ";sprop-vps=") vps (ground arith)
                (code_line vps hv))),
        (
          plain_after (codes "a=framesize:97 ") (digits w) (b'-' ∷ digits h) (ground arith)
              (number_line w) (omega arith, number_line h),
          (ground arith, tt),
        ),
      ),
    ),
  )

  abbrev with_sets : MediaInfo
  with_sets = record hevc_named { sps = sps; pps = pps; vps = vps }

  hevc_third : read_attribute (hevc_fmtp_text vps sps pps) hevc_named ≡ with_sets
  unfolding read_attribute starts_with
  hevc_third = fmtp_in-hevc_fmtp_text vps sps pps some_vps some_sps some_pps hv hs hp hevc_named

  read_hevc_lines :
      w < 2 ^ 32
      → h < 2 ^ 32
      → read_lines [] (hevc_lines w h vps sps pps) ≡ h265_info w h vps sps pps ∷ []
  unfolding read_lines starts_with new_media
  read_hevc_lines hw hh =
      rw
        (
          read_first,
          on_one (record new_media { payload_type = 97 }) hevc_named
              (codes "a=rtpmap:97 H265/90000") refl hevc_second,
          on_one hevc_named with_sets (hevc_fmtp_text vps sps pps) refl hevc_third,
          on_one with_sets (h265_info w h vps sps pps) (hevc_framesize_text w h) refl
              (hevc_size w h with_sets hw hh),
          on_one (h265_info w h vps sps pps) (h265_info w h vps sps pps) (codes "a=control:stream")
              refl (control_last (h265_info w h vps sps pps)),
        )
        refl

  -- From the description of an H.265 medium as the server builds it, the parser reads the codec, the
  -- payload type and the clock rate, the size and the three parameter sets.
  pub parse-build_h265 :
      (seconds : ℕ) (ip : Text)
      → w < 2 ^ 32
      → h < 2 ^ 32
      → Lacks 10 ip
      → parse (
          build (add_h265_media (codes "stream") 0 97 90000 vps sps pps w h (described seconds ip)))
        ≡ h265_info w h vps sps pps ∷ []
  unfolding parse
  parse-build_h265 seconds ip hw hh k =
      let ls = head_lines seconds ip ++ hevc_lines w h vps sps pps in
      ap parse (build-hevc_lines seconds ip)
      ∙ (ap (read_lines []) (
            lines-written ls (
              All-append (Lacks 10) (head_lines seconds ip) (hevc_lines w h vps sps pps)
                (head_lines-Lacks seconds ip k) hevc_lines-Lacks))
          ∙ (read_head_lines seconds ip (hevc_lines w h vps sps pps) ∙ read_hevc_lines hw hh))
