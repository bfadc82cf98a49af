-- ===== src/Rtsp/Response/StatusLine.antt =====
-- The lines of `RtspResponse::build` in src/rtsp-common/rtsp_request.cpp, and how the status line is
-- read.
use rtsp_sdk.Common.{
  ℕ, ◌≡◌, ◌≢◌, refl, ◌∙◌, true, none, [], ◌∷◌, ◌++◌, append_assoc, All, All-append, arith,
}
use rtsp_sdk.Text.Chars.{Text, codes, Lacks, Free, is_space}
use rtsp_sdk.Text.Lines.{
  crlf, written, IsLine, word, after_word, word-append, after_word-append, word_skip,
  after_word_skip,
}
use rtsp_sdk.Text.Numbers.{
  show_int, show_int-Free, show_int-some, in_int32, parse_int32_safe-show_int,
}
use rtsp_sdk.Text.Dict.{lookup, Distinct}
use rtsp_sdk.Rtsp.Headers.{texts, IsName, IsEntry}
use rtsp_sdk.Rtsp.Headers.Entries.{sent_entries, message-written, no_space}
use rtsp_sdk.Rtsp.Response.{Response, read_status_line, build, drop_blank}

-- A response that its text can show.
pub record Clean (r : Response) : Type 0 where
  pub cseq_int32 : in_int32 r.cseq ≡ true
  pub status_int32 : in_int32 r.status_code ≡ true
  pub reason_line : Lacks 13 r.status_reason × Lacks 10 r.status_reason
  pub headers_clean : All IsEntry r.headers
  pub headers_distinct : Distinct r.headers
  pub no_cseq : lookup (codes "CSeq") r.headers ≡ none

unfoldable pub status_line : Response → Text
status_line r = codes "RTSP/1.0 " ++ (show_int r.status_code ++ (32 ∷ r.status_reason))

flat : (v s t u : Text) → v ++ (s ++ (32 ∷ (t ++ u))) ≡ (v ++ (s ++ (32 ∷ t))) ++ u
flat v s t u = simp append_assoc

pub build-written :
    (r : Response)
    → build r
      ≡ written (status_line r ∷ texts (sent_entries r.cseq r.headers r.body)) ++ (crlf ++ r.body)
unfolding build status_line
build-written r =
    flat (codes "RTSP/1.0 ") (show_int r.status_code) r.status_reason _
    ∙ message-written (status_line r) r.cseq r.headers r.body

without :
    (r : Response) (d : ℕ)
    → is_space d ≡ true
    → 32 ≢ d
    → Lacks d (codes "RTSP/1.0 ")
    → Lacks d r.status_reason
    → Lacks d (status_line r)
unfolding status_line
without r d h k v l =
    All-append (λ c. c ≢ d) (codes "RTSP/1.0 ") _ v
      (All-append (λ c. c ≢ d) (show_int r.status_code) (32 ∷ r.status_reason)
        (no_space (show_int r.status_code) d h (show_int-Free r.status_code)) (k, l))

not_nil : (r : Response) → status_line r ≢ []
unfolding status_line
not_nil r e = cc

pub cseq-IsName : IsName (codes "CSeq")
cseq-IsName = ground arith

version_plain : Free is_space (codes "RTSP/1.0")
unfolding is_space
version_plain = ground arith

pub status_line-IsLine : (r : Response) → Clean r → IsLine (status_line r)
unfolding is_space
status_line-IsLine r c = (
  not_nil r,
  without r 13 refl (omega arith) plain_13 c.reason_line.0,
  without r 10 refl (omega arith) plain_10 c.reason_line.1,
)
  where
    plain_13 : Lacks 13 (codes "RTSP/1.0 ")
    plain_13 = ground arith

    plain_10 : Lacks 10 (codes "RTSP/1.0 ")
    plain_10 = ground arith

-- The words of the status line.
pub read_status_line-build :
    (q r : Response)
    → Clean r
    → read_status_line q (status_line r)
      ≡ record q { status_code = r.status_code; status_reason = r.status_reason }
unfolding read_status_line status_line drop_blank
read_status_line-build q r c =
    let n = show_int r.status_code in
    let tail = n ++ (32 ∷ r.status_reason) in
    let one : after_word (codes "RTSP/1.0" ++ (32 ∷ tail)) ≡ 32 ∷ tail =
      after_word-append (codes "RTSP/1.0") tail (λ e. cc) version_plain in
    let two : word (32 ∷ tail) ≡ n =
      word_skip tail
      ∙ word-append n r.status_reason (show_int-some r.status_code) (show_int-Free r.status_code) in
    let three : after_word (32 ∷ tail) ≡ 32 ∷ r.status_reason =
      after_word_skip tail
      ∙ after_word-append n r.status_reason (show_int-some r.status_code)
          (show_int-Free r.status_code) in
    rw (one, two, three, parse_int32_safe-show_int r.status_code c.status_int32) refl
