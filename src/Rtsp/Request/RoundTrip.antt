-- ===== src/Rtsp/Request/RoundTrip.antt =====
-- `RtspRequest::parse` on what `RtspRequest::build` gives.
use rtsp_sdk.Common.{
  ◌≡◌, refl, sym, ap, ◌∙◌, some, List, [], ◌∷◌, ◌++◌, length, take-append, drop-append, drop-drop,
  All,
}
use rtsp_sdk.Text.Chars.{Text, Free, is_space, lower}
use rtsp_sdk.Text.Lines.{crlf2, joined, IsLine, written-joined, find-joined, lines-joined}
use rtsp_sdk.Text.Dict.{Dict, put}
use rtsp_sdk.Rtsp.Headers.{texts, texts-IsLine, IsEntry, read_header-text}
use rtsp_sdk.Rtsp.Headers.Entries.{sent_entries-IsEntry}
use rtsp_sdk.Rtsp.Request.{
  Request, add_header, read_headers, read_head, parse_at, parse, build, get_cseq,
}
use rtsp_sdk.Rtsp.Request.Build.{
  IsWord, request_line, sent, build-written, request_line-IsLine, read_request_line-build,
}

-- A request that its text can show.
pub record Clean (r : Request) : Type 0 where
  pub uri_word : IsWord r.uri
  pub version_plain : Free is_space r.version
  pub headers_clean : All IsEntry r.headers

-- The headers are put in one after the other, under lower-case names.
unfoldable pub put_all : Dict Text → Dict Text → Dict Text
put_all [] d = d
put_all ((n, v) ∷ h) d = put_all h (put (lower n) v d)

unfoldable pub received : Request → Request → Request
received q r = record {
  method = r.method;
  uri = r.uri;
  path = r.uri;
  version = r.version;
  headers = put_all (sent r) q.headers;
  body = r.body;
}

read_headers-texts :
    (h : Dict Text) (q : Request)
    → All IsEntry h
    → read_headers q (texts h) ≡ record q { headers = put_all h q.headers }
unfolding read_headers put_all add_header
read_headers-texts [] q k = refl
read_headers-texts ((n, v) ∷ h) q k =
    ap (λ x. read_headers (add_header q x) (texts h)) (read_header-text (n, v) k.0)
    ∙ read_headers-texts h (record q { headers = put (lower n) v q.headers }) k.1

parse_at-joined :
    (q : Request) (l : Text) (ls : List Text) (body : Text)
    → IsLine l
    → All IsLine ls
    → parse q (joined l ls ++ (crlf2 ++ body))
      ≡ some (read_head (record q { body = body }) (l ∷ ls))
unfolding parse parse_at
parse_at-joined q l ls body h hs =
    let j = joined l ls in
    rw
      (
        find-joined l ls body h hs,
        sym (drop-drop (length j) 4 (j ++ (crlf2 ++ body))),
        drop-append j (crlf2 ++ body) (length j) refl,
        take-append j (crlf2 ++ body) (length j) refl,
        lines-joined l ls h hs,
      )
      refl

-- Whatever the object held, a request that its text can show is read back: with its words, its
-- body, the URI for the path, and the headers that were sent put on top of those it had.
pub parse-build : (q r : Request) → Clean r → parse q (build r) ≡ some (received q r)
unfolding received read_head sent
parse-build q r c =
    let l = request_line r in
    let ls = texts (sent r) in
    let entries = sent_entries-IsEntry (get_cseq r) r.headers r.body c.headers_clean in
    ap (parse q) (build-written r ∙ written-joined l ls r.body)
    ∙ (parse_at-joined q l ls r.body (request_line-IsLine r c.uri_word c.version_plain)
          (texts-IsLine (sent r) entries)
        ∙ ap some (
            ap (λ x. read_headers x ls)
              (read_request_line-build (record q { body = r.body }) r c.uri_word c.version_plain)
            ∙ read_headers-texts (sent r) _ entries))
