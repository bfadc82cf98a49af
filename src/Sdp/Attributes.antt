-- ===== src/Sdp/Attributes.antt =====
-- What `SdpParser` of src/rtsp-common/sdp.cpp reads from the attribute lines of such a description.
use rtsp_sdk.Common.{
  ℕ, ◌<◌, ◌^◌, ◌≡◌, ◌≢◌, refl, sym, ap, ◌∙◌, true, none, some, [], ◌∷◌, ◌++◌, append-nil, All,
  All-append, arith,
}
use rtsp_sdk.Text.Chars.{
  Text, codes, Lacks, is_digit, is_space, to_lower, to_upper, trim, drop_end, cons_unless,
  take_while, drop_while,
}
use rtsp_sdk.Text.Search.{starts_with, contains, find}
use rtsp_sdk.Text.Numbers.{
  digits, parse_uint32_safe, trim_copy, unsigned_value, if_below, value, value_on,
}
use rtsp_sdk.Text.Patterns.{
  literal, many, blanks, number, search, is_name_char, is_item_char, is_part_char,
}
use rtsp_sdk.Text.Match.{
  Stops, Within, many-Within, number-digits, number_last, literal-append, search_first,
  blanks-digits, search-Lacks, literal-Lacks, parse_uint32_safe-digits, IsCode,
}
use rtsp_sdk.Sdp.Parser.{
  MediaInfo, new_media, media_of, media_pattern, set_payload_type, read_attribute, rtpmap_pattern,
  set_rtpmap, codec_named, set_clip, set_size, fmtp_in, framesize_pattern, cliprect_pattern,
  h264_pattern, set_pattern,
}
use rtsp_sdk.Sdp.Texts.{cliprect_text, framesize_text, sets_text, fmtp_text}

zero_digit :
    (rest : Text) → Stops is_digit rest → number (codes "0" ++ rest) ≡ some (codes "0", rest)
unfolding number is_digit
zero_digit rest h = many-Within is_digit (codes "0") rest (λ e. cc) (refl, tt) h

cliprect_pattern-cliprect_text :
    (w h : ℕ) → cliprect_pattern (cliprect_text w h) ≡ some (digits h, digits w)
unfolding cliprect_pattern is_digit
cliprect_pattern-cliprect_text w h =
    let r = digits h ++ (b',' ∷ digits w) in
    rw
      (
        literal-append (codes "a=cliprect:") (codes "0,0," ++ r),
        zero_digit (codes ",0," ++ r) refl,
        literal-append (codes ",") (codes "0," ++ r),
        zero_digit (codes "," ++ r) refl,
        literal-append (codes ",") r,
        number-digits h (b',' ∷ digits w) refl,
        literal-append (codes ",") (digits w),
        number_last w,
      )
      refl

-- Behind any number that is read as a whole.
pub framesize_pattern-payload :
    (p : Text) (w h : ℕ)
    → ((rest : Text) → Stops is_digit rest → number (p ++ rest) ≡ some (p, rest))
    → framesize_pattern (codes "a=framesize:" ++ (p ++ (32 ∷ (digits w ++ (b'-' ∷ digits h)))))
      ≡ some (digits w, digits h)
unfolding framesize_pattern is_digit
framesize_pattern-payload p w h read =
    let r = digits w ++ (b'-' ∷ digits h) in
    rw
      (
        literal-append (codes "a=framesize:") (p ++ (32 ∷ r)),
        read (32 ∷ r) refl,
        blanks-digits w (b'-' ∷ digits h),
        number-digits w (b'-' ∷ digits h) refl,
        literal-append (codes "-") (digits h),
        number_last h,
      )
      refl

ninety_six :
    (rest : Text) → Stops is_digit rest → number (codes "96" ++ rest) ≡ some (codes "96", rest)
unfolding number is_digit
ninety_six rest h = many-Within is_digit (codes "96") rest (λ e. cc) (refl, (refl, tt)) h

framesize_pattern-framesize_text :
    (w h : ℕ) → framesize_pattern (framesize_text w h) ≡ some (digits w, digits h)
framesize_pattern-framesize_text w h = framesize_pattern-payload (codes "96") w h ninety_six

IsCodes-items : (s : Text) → All IsCode s → Within is_item_char s
IsCodes-items [] h = tt
IsCodes-items (c ∷ s) h = (h.0.0, IsCodes-items s h.1)

item-part : (c : ℕ) → is_item_char c ≡ true → is_part_char c ≡ true
unfolding is_item_char is_part_char
item-part c h = ground arith

pub IsCodes-parts : (s : Text) → All IsCode s → Within is_part_char s
IsCodes-parts [] h = tt
IsCodes-parts (c ∷ s) h = (item-part c h.0.0, IsCodes-parts s h.1)

module _ (sps pps : Text) (some_sps : sps ≢ []) (some_pps : pps ≢ []) (hs : All IsCode sps)
    (hp : All IsCode pps) where
  last_part : many is_part_char pps ≡ some (pps, [])
  last_part =
      ap (many is_part_char) (sym (append-nil pps))
      ∙ many-Within is_part_char pps [] some_pps (IsCodes-parts pps hp) tt

  h264_pattern-sets_text :
      h264_pattern (codes "sprop-parameter-sets=" ++ sets_text sps pps) ≡ some (sps, pps)
  unfolding h264_pattern is_item_char is_space
  h264_pattern-sets_text =
      rw
        (
          literal-append (codes "sprop-parameter-sets=") (sets_text sps pps),
          many-Within is_item_char sps (b',' ∷ pps) some_sps (IsCodes-items sps hs) refl,
          literal-append (codes ",") pps,
          last_part,
        )
        refl

  search_h264 : search h264_pattern (fmtp_text sps pps) ≡ some (sps, pps)
  unfolding search h264_pattern literal starts_with to_lower
  search_h264 =
      search_first h264_pattern (codes "sprop-parameter-sets=" ++ sets_text sps pps) (sps, pps)
        h264_pattern-sets_text

  no_dash : Lacks b'-' (sets_text sps pps)
  no_dash =
      All-append (λ c. c ≢ b'-') sps (b',' ∷ pps) (dashless sps hs) (omega arith, dashless pps hp)
    where
      dashless : (s : Text) → All IsCode s → Lacks b'-' s
      dashless [] h = tt
      dashless (c ∷ s) h = (h.0.1, dashless s h.1)

  set_pattern-Lacks :
      (k t : Text) → Lacks b'-' t → set_pattern (codes "sprop" ++ (b'-' ∷ k)) t ≡ none
  unfolding set_pattern
  set_pattern-Lacks k t h = rw (literal-Lacks (codes "sprop") k t h) refl

  no_vps : search (set_pattern (codes "sprop-vps=")) (fmtp_text sps pps) ≡ none
  unfolding search set_pattern literal starts_with to_lower
  no_vps =
      search-Lacks (set_pattern (codes "sprop-vps=")) (sets_text sps pps)
        (set_pattern-Lacks (codes "vps=")) no_dash

  no_sps : search (set_pattern (codes "sprop-sps=")) (fmtp_text sps pps) ≡ none
  unfolding search set_pattern literal starts_with to_lower
  no_sps =
      search-Lacks (set_pattern (codes "sprop-sps=")) (sets_text sps pps)
        (set_pattern-Lacks (codes "sps=")) no_dash

  no_pps : search (set_pattern (codes "sprop-pps=")) (fmtp_text sps pps) ≡ none
  unfolding search set_pattern literal starts_with to_lower
  no_pps =
      search-Lacks (set_pattern (codes "sprop-pps=")) (sets_text sps pps)
        (set_pattern-Lacks (codes "pps=")) no_dash

  pub fmtp_in-fmtp_text :
      (m : MediaInfo)
      → m.vps ≡ []
      → fmtp_in (fmtp_text sps pps) m ≡ record m { sps = sps; pps = pps; vps = [] }
  unfolding fmtp_in
  fmtp_in-fmtp_text m e = rw (search_h264, no_vps, no_sps, no_pps, e) refl

-- What is known of the medium behind its line, its rtpmap, and the sizes.
abbrev pub named : MediaInfo
named = record new_media { payload_name = codes "H264"; payload_type = 96; clock_rate = 90000 }

abbrev pub h264_info : ℕ → ℕ → Text → Text → MediaInfo
h264_info w h sps pps = record named { width = w; height = h; sps = sps; pps = pps }

pub media_first : media_of (codes "m=video 0 RTP/AVP 96") ≡ record new_media { payload_type = 96 }
unfolding media_of search media_pattern literal blanks number many take_while drop_while is_digit
    is_space starts_with to_lower set_payload_type parse_uint32_safe trim_copy trim drop_end
    cons_unless unsigned_value if_below value value_on new_media
media_first = refl

pub rtpmap_second :
    read_attribute (codes "a=rtpmap:96 H264/90000") (record new_media { payload_type = 96 }) ≡ named
unfolding read_attribute search rtpmap_pattern literal blanks number many take_while drop_while
    is_digit is_space is_name_char starts_with to_lower to_upper set_rtpmap parse_uint32_safe
    trim_copy trim drop_end cons_unless unsigned_value if_below value value_on new_media codec_named
    contains find
rtpmap_second = refl

pub clip_attribute :
    (w h : ℕ) (m : MediaInfo)
    → w < 2 ^ 32
    → h < 2 ^ 32
    → m.width ≡ 0
    → m.height ≡ 0
    → read_attribute (cliprect_text w h) m ≡ record m { width = w; height = h }
unfolding read_attribute starts_with set_clip
clip_attribute w h m hw hh e f =
    rw
      (
        search_first cliprect_pattern (cliprect_text w h) (digits h, digits w)
            (cliprect_pattern-cliprect_text w h),
        parse_uint32_safe-digits w hw,
        parse_uint32_safe-digits h hh,
        e,
        f,
      )
      refl

pub size_attribute :
    (w h : ℕ) (m : MediaInfo)
    → w < 2 ^ 32
    → h < 2 ^ 32
    → read_attribute (framesize_text w h) m ≡ record m { width = w; height = h }
unfolding read_attribute starts_with set_size
size_attribute w h m hw hh =
    rw
      (
        search_first framesize_pattern (framesize_text w h) (digits w, digits h)
            (framesize_pattern-framesize_text w h),
        parse_uint32_safe-digits w hw,
        parse_uint32_safe-digits h hh,
      )
      refl
