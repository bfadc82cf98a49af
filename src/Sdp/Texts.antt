-- ===== src/Sdp/Texts.antt =====
-- The lines that `SdpBuilder` of src/rtsp-common/sdp.cpp writes for an H.264 description of the server.
use rtsp_sdk.Common.{
  ℕ, ◌≡◌, ◌≢◌, refl, false, List, [], ◌∷◌, ◌++◌, append_assoc, All, All-append, arith,
}
use rtsp_sdk.Text.Chars.{Text, codes, Lacks, is_digit, is_space}
use rtsp_sdk.Text.Search.{is_empty}
use rtsp_sdk.Text.Lines.{written}
use rtsp_sdk.Text.Numbers.{digits, digits_on, Digits, digits-Digits}
use rtsp_sdk.Text.Patterns.{is_item_char}
use rtsp_sdk.Text.Match.{IsCode}
use rtsp_sdk.Sdp.Builder.{
  SdpBuilder, put_text, set_version, set_origin, set_session_name, set_connection, set_time,
  new_builder, media_line, rtpmap_line, fmtp_h264, cliprect_line, framesize_line, control_line,
  add_h264_media, build,
}

pub digits_0 : digits 0 ≡ codes "0"
unfolding digits digits_on
digits_0 = refl

digits_96 : digits 96 ≡ codes "96"
unfolding digits digits_on
digits_96 = refl

pub digits_90000 : digits 90000 ≡ codes "90000"
unfolding digits digits_on
digits_90000 = refl

abbrev pub cliprect_text : ℕ → ℕ → Text
cliprect_text w h = codes "a=cliprect:0,0," ++ (digits h ++ (b',' ∷ digits w))

abbrev pub framesize_text : ℕ → ℕ → Text
framesize_text w h = codes "a=framesize:96 " ++ (digits w ++ (b'-' ∷ digits h))

abbrev pub sets_text : Text → Text → Text
sets_text sps pps = sps ++ (b',' ∷ pps)

abbrev pub fmtp_text : Text → Text → Text
fmtp_text sps pps =
    codes "a=fmtp:96 packetization-mode=1;sprop-parameter-sets=" ++ sets_text sps pps

-- The lines of the medium.
abbrev pub media_lines : ℕ → ℕ → Text → Text → List Text
media_lines w h sps pps =
    codes "m=video 0 RTP/AVP 96"
    ∷ codes "a=rtpmap:96 H264/90000"
    ∷ fmtp_text sps pps
    ∷ cliprect_text w h
    ∷ framesize_text w h
    ∷ codes "a=control:stream"
    ∷ []

-- And those in front of it.
abbrev pub head_lines : ℕ → Text → List Text
head_lines seconds ip =
    codes "v=0"
    ∷ (codes "o=- " ++ (digits seconds ++ (32 ∷ (digits seconds ++ (codes " IN IP4 " ++ ip)))))
    ∷ codes "s=RTSP Stream"
    ∷ codes "t=0 0"
    ∷ (codes "c=IN IP4 " ++ ip)
    ∷ []

abbrev pub described : ℕ → Text → SdpBuilder
described seconds ip = set_connection (codes "IN") (codes "IP4") ip (
    set_time 0 0 (
      set_session_name (codes "RTSP Stream") (
        set_origin (codes "-") seconds seconds (codes "IN") (codes "IP4") ip
          (set_version 0 (new_builder seconds)))))

pub not_empty : (s : Text) → s ≢ [] → is_empty s ≡ false
unfolding is_empty
not_empty [] h = absurd (h refl)
not_empty (c ∷ s) h = refl

pub build-written :
    (seconds w h : ℕ) (ip sps pps : Text)
    → sps ≢ []
    → build (add_h264_media (codes "stream") 0 96 90000 sps pps w h (described seconds ip))
      ≡ written (head_lines seconds ip ++ media_lines w h sps pps)
unfolding build add_h264_media put_text set_version set_origin set_session_name set_connection
    set_time media_line rtpmap_line fmtp_h264 cliprect_line framesize_line control_line written
build-written seconds w h ip sps pps n =
    rw (digits_0, digits_96, digits_90000, not_empty sps n) (simp append_assoc)

Digits-Lacks : (s : Text) → Digits s → Lacks 10 s
unfolding is_digit
Digits-Lacks [] h = tt
Digits-Lacks (c ∷ s) h = (ground arith, Digits-Lacks s h.1)

pub number_line : (n : ℕ) → Lacks 10 (digits n)
number_line n = Digits-Lacks (digits n) (digits-Digits n)

pub code_line : (s : Text) → All IsCode s → Lacks 10 s
unfolding is_item_char is_space
code_line [] h = tt
code_line (c ∷ s) h = (ground arith, code_line s h.1)

pub plain_after : (s t u : Text) → Lacks 10 s → Lacks 10 t → Lacks 10 u → Lacks 10 (s ++ (t ++ u))
plain_after s t u a b c = All-append (λ d. d ≢ 10) s (t ++ u) a (All-append (λ d. d ≢ 10) t u b c)

pub head_lines-Lacks :
    (seconds : ℕ) (ip : Text) → Lacks 10 ip → All (Lacks 10) (head_lines seconds ip)
head_lines-Lacks seconds ip k = (
  ground arith,
  (
    plain_after (codes "o=- ") (digits seconds) (32 ∷ (digits seconds ++ (codes " IN IP4 " ++ ip)))
        (ground arith) (number_line seconds)
        (
          omega arith,
          plain_after (digits seconds) (codes " IN IP4 ") ip (number_line seconds) (ground arith) k,
        ),
    (
      ground arith,
      (ground arith, (All-append (λ d. d ≢ 10) (codes "c=IN IP4 ") ip (ground arith) k, tt)),
    ),
  ),
)

module _ (w h : ℕ) (sps pps : Text) (hs : All IsCode sps) (hp : All IsCode pps) where
  pub media_lines-Lacks : All (Lacks 10) (media_lines w h sps pps)
  media_lines-Lacks = (
    ground arith,
    (
      ground arith,
      (
        plain_after (codes "a=fmtp:96 packetization-mode=1;sprop-parameter-sets=") sps (b',' ∷ pps)
            (ground arith) (code_line sps hs) (omega arith, code_line pps hp),
        (
          plain_after (codes "a=cliprect:0,0,") (digits h) (b',' ∷ digits w) (ground arith)
              (number_line h) (omega arith, number_line w),
          (
            plain_after (codes "a=framesize:96 ") (digits w) (b'-' ∷ digits h) (ground arith)
                (number_line w) (omega arith, number_line h),
            (ground arith, tt),
          ),
        ),
      ),
    ),
  )
