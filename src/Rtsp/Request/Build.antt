-- ===== src/Rtsp/Request/Build.antt =====
-- The text that `RtspRequest::build` gives, as the lines of a header with a body behind them.
use rtsp_sdk.Common.{
  ℕ, ◌≡◌, ◌≢◌, refl, ap, ◌∙◌, true, [], ◌∷◌, ◌++◌, append_assoc, All-append, arith,
}
use rtsp_sdk.Text.Chars.{Text, Lacks, Free, is_space, to_upper}
use rtsp_sdk.Text.Lines.{
  crlf, word, after_word, word-append, after_word-append, word_skip, after_word_skip, word_last,
  written, IsLine,
}
use rtsp_sdk.Text.Dict.{Dict}
use rtsp_sdk.Text.Search.{same}
use rtsp_sdk.Rtsp.Headers.{texts}
use rtsp_sdk.Rtsp.Headers.Entries.{sent_entries, message-written, no_space}
use rtsp_sdk.Rtsp.Request.{
  Method, unknown, options, describe, setup, play, pause, teardown, announce, do_record,
  get_parameter, set_parameter, Request, method_to_string, parse_method, method_named,
  read_request_line, get_cseq, build,
}

-- Text between blanks.
abbrev pub IsWord : Text → Type 0
IsWord w = (w ≢ []) × Free is_space w

unfoldable pub request_line : Request → Text
request_line r = method_to_string r.method ++ (32 ∷ (r.uri ++ (32 ∷ r.version)))

unfoldable pub sent : Request → Dict Text
sent r = sent_entries (get_cseq r) r.headers r.body

flat : (m u v t : Text) → m ++ (32 ∷ (u ++ (32 ∷ (v ++ t)))) ≡ (m ++ (32 ∷ (u ++ (32 ∷ v)))) ++ t
flat m u v t = simp append_assoc

pub build-written :
    (r : Request) → build r ≡ written (request_line r ∷ texts (sent r)) ++ (crlf ++ r.body)
unfolding build request_line sent
build-written r =
    flat (method_to_string r.method) r.uri r.version _
    ∙ message-written (request_line r) (get_cseq r) r.headers r.body

not_nil : (s t : Text) → s ≢ [] → s ++ t ≢ []
not_nil [] t h = λ e. h refl
not_nil (c ∷ s) t h = λ e. cc

without :
    (m u v : Text) (d : ℕ)
    → is_space d ≡ true
    → 32 ≢ d
    → Free is_space m
    → Free is_space u
    → Free is_space v
    → Lacks d (m ++ (32 ∷ (u ++ (32 ∷ v))))
without m u v d h k fm fu fv =
    All-append (λ c. c ≢ d) m (32 ∷ (u ++ (32 ∷ v))) (no_space m d h fm)
      (k, All-append (λ c. c ≢ d) u (32 ∷ v) (no_space u d h fu) (k, no_space v d h fv))

method-IsWord : (m : Method) → IsWord (method_to_string m)
unfolding method_to_string is_space
method-IsWord m = ground arith

pub request_line-IsLine :
    (r : Request) → IsWord r.uri → Free is_space r.version → IsLine (request_line r)
unfolding request_line is_space
request_line-IsLine r u v =
    let w = method-IsWord r.method in
    (
      not_nil (method_to_string r.method) (32 ∷ (r.uri ++ (32 ∷ r.version))) w.0,
      without (method_to_string r.method) r.uri r.version 13 refl (omega arith) w.1 u.1 v,
      without (method_to_string r.method) r.uri r.version 10 refl (omega arith) w.1 u.1 v,
    )

pub parse_method-string : (m : Method) → parse_method (method_to_string m) ≡ m
unfolding parse_method method_to_string method_named to_upper same
parse_method-string unknown = refl
parse_method-string options = refl
parse_method-string describe = refl
parse_method-string setup = refl
parse_method-string play = refl
parse_method-string pause = refl
parse_method-string teardown = refl
parse_method-string announce = refl
parse_method-string do_record = refl
parse_method-string get_parameter = refl
parse_method-string set_parameter = refl

module _ (m u v : Text) (hm : IsWord m) (hu : IsWord u) (hv : Free is_space v) where
  abbrev line : Text
  line = m ++ (32 ∷ (u ++ (32 ∷ v)))

  after_one : after_word line ≡ 32 ∷ (u ++ (32 ∷ v))
  after_one = after_word-append m (u ++ (32 ∷ v)) hm.0 hm.1

  after_two : after_word (after_word line) ≡ 32 ∷ v
  after_two =
      ap after_word after_one ∙ (after_word_skip (u ++ (32 ∷ v)) ∙ after_word-append u v hu.0 hu.1)

  pub word_one : word line ≡ m
  word_one = word-append m (u ++ (32 ∷ v)) hm.0 hm.1

  pub word_two : word (after_word line) ≡ u
  word_two = ap word after_one ∙ (word_skip (u ++ (32 ∷ v)) ∙ word-append u v hu.0 hu.1)

  pub word_three : word (after_word (after_word line)) ≡ v
  word_three = ap word after_two ∙ (word_skip v ∙ word_last v hv)

-- The words of the request line.
pub read_request_line-build :
    (q r : Request)
    → IsWord r.uri
    → Free is_space r.version
    → read_request_line q (request_line r)
      ≡ record q { method = r.method; uri = r.uri; path = r.uri; version = r.version }
unfolding read_request_line request_line
read_request_line-build q r u v =
    let m = method_to_string r.method in
    let w = method-IsWord r.method in
    rw
      (
        word_one m r.uri r.version w u v,
        word_two m r.uri r.version w u v,
        word_three m r.uri r.version w u v,
        parse_method-string r.method,
      )
      refl
