-- ===== src/Rtsp/Response/RoundTrip.antt =====
-- `RtspResponse::parse` on what `RtspResponse::build` gives.
use rtsp_sdk.Common.{
  ◌+◌, ◌≡◌, refl, sym, ap, ◌∙◌, true, not, ◌&&◌, Option, none, some, List, [], ◌∷◌, ◌++◌, length,
  length-append, drop, take-append, drop-append, drop-drop, All, All-append, ltb, if◌then◌else◌,
  arith, lt→ltb, le→ltb, Bool-cases, inl, inr,
}
use rtsp_sdk.Text.Chars.{Text, codes}
use rtsp_sdk.Text.Search.{same, same→≡, is_empty}
use rtsp_sdk.Text.Lines.{crlf2, joined, IsLine, written-joined, find-joined, lines-joined}
use rtsp_sdk.Text.Numbers.{
  pos, show_int, digits, in_int32, parse_int32_safe, parse_int32_safe-show_int,
}
use rtsp_sdk.Text.Dict.{
  Dict, lookup, put, put_entries, put_entries-append, or_else, lookup-put, lookup-append,
  lookup-absent, lookup-put_entries,
}
use rtsp_sdk.Rtsp.Headers.{texts, texts-IsLine, IsEntry, read_header-text, length_entry}
use rtsp_sdk.Rtsp.Headers.Entries.{
  sent_entries, sent_entries-IsEntry, length_entry-IsEntry, show_int-IsValue,
}
use rtsp_sdk.Rtsp.Response.{
  Response, new_response, add_header, read_headers, read_head, parse_at, parse, build,
  number_or_zero,
}
use rtsp_sdk.Rtsp.Response.StatusLine.{
  Clean, status_line, build-written, cseq-IsName, status_line-IsLine, read_status_line-build,
}

read_headers-texts :
    (h : Dict Text) (q : Response)
    → All IsEntry h
    → lookup (codes "CSeq") h ≡ none
    → read_headers q (texts h) ≡ record q { headers = put_entries h q.headers }
unfolding read_headers put_entries add_header
read_headers-texts [] q k n = refl
read_headers-texts ((n, v) ∷ h) q k m =
    let (other, rest) = lookup-absent (codes "CSeq") n v h m in
    ap (λ x. read_headers (add_header q x) (texts h)) (read_header-text (n, v) k.0)
    ∙ (ap
          (λ b.
            read_headers
              (record q {
                headers = put n v q.headers;
                cseq = if b then number_or_zero (parse_int32_safe v) else q.cseq;
              })
              (texts h))
          other
        ∙ read_headers-texts h (record q { headers = put n v q.headers }) k.1 rest)

-- The body behind a header, for an object that had none.
body-behind :
    (j b old : Text)
    → old ≡ []
    → (if ltb (length j + 4) (length (j ++ (crlf2 ++ b)))
        then drop (length j + 4) (j ++ (crlf2 ++ b))
        else old)
      ≡ b
body-behind j [] old e =
    let size = length-append j (crlf2 ++ []) in
    rw (le→ltb (length j + 4) (length (j ++ (crlf2 ++ []))) (omega (arith, size))) e
body-behind j (c ∷ b) old e =
    let size = length-append j (crlf2 ++ (c ∷ b)) in
    rw
      (
        lt→ltb (length j + 4) (length (j ++ (crlf2 ++ (c ∷ b)))) (omega (arith, size)),
        sym (drop-drop (length j) 4 (j ++ (crlf2 ++ (c ∷ b)))),
        drop-append j (crlf2 ++ (c ∷ b)) (length j) refl,
      )
      refl

parse_at-joined :
    (q : Response) (l : Text) (ls : List Text) (body : Text)
    → q.body ≡ []
    → IsLine l
    → All IsLine ls
    → parse q (joined l ls ++ (crlf2 ++ body)) ≡ read_head (record q { body = body }) (l ∷ ls)
unfolding parse parse_at
parse_at-joined q l ls body e h hs = rw (find-joined l ls body h hs) (
    rw (take-append (joined l ls) (crlf2 ++ body) (length (joined l ls)) refl) (
      rw (lines-joined l ls h hs) (
        ap (λ b. read_head (record q { body = b }) (l ∷ ls))
          (body-behind (joined l ls) body q.body e))))

-- What an object without headers holds after a response was parsed.
unfoldable pub received : Response → Response
received r = record r {
  headers =
      put_entries (length_entry r.body)
        (put_entries r.headers (put (codes "CSeq") (show_int r.cseq) []));
}

length_entry-absent : (b : Text) → lookup (codes "CSeq") (length_entry b) ≡ none
unfolding lookup length_entry same
length_entry-absent [] = refl
length_entry-absent (c ∷ b) = refl

first-text :
    (r q : Response)
    → in_int32 r.cseq ≡ true
    → read_headers q (texts (sent_entries r.cseq r.headers r.body))
      ≡ read_headers
          (record q { headers = put (codes "CSeq") (show_int r.cseq) q.headers; cseq = r.cseq })
          (texts (r.headers ++ length_entry r.body))
unfolding read_headers sent_entries add_header same
first-text r q h =
    let v = show_int r.cseq in
    let rest = texts (r.headers ++ length_entry r.body) in
    ap (λ x. read_headers (add_header q x) rest)
      (read_header-text (codes "CSeq", v) (cseq-IsName, show_int-IsValue r.cseq))
    ∙ ap
        (λ x.
          read_headers
            (record q { headers = put (codes "CSeq") v q.headers; cseq = number_or_zero x }) rest)
        (parse_int32_safe-show_int r.cseq h)

rest-texts :
    (r q : Response)
    → Clean r
    → read_headers q (texts (r.headers ++ length_entry r.body))
      ≡ record q { headers = put_entries (length_entry r.body) (put_entries r.headers q.headers) }
rest-texts r q c =
    let n : lookup (codes "CSeq") (r.headers ++ length_entry r.body) ≡ none =
      lookup-append r.headers (length_entry r.body) (codes "CSeq")
      ∙ rw (c.no_cseq) (length_entry-absent r.body) in
    read_headers-texts (r.headers ++ length_entry r.body) q
      (All-append IsEntry r.headers (length_entry r.body) c.headers_clean
        (length_entry-IsEntry r.body))
      n
    ∙ ap (λ d. record q { headers = d })
        (put_entries-append r.headers (length_entry r.body) q.headers)

parse-build-received :
    (r : Response) → Clean r → parse (new_response (pos 0)) (build r) ≡ received r
unfolding received read_head new_response
parse-build-received r c =
    let l = status_line r in
    let h = sent_entries r.cseq r.headers r.body in
    let q = new_response (pos 0) in
    ap (parse q) (build-written r ∙ written-joined l (texts h) r.body)
    ∙ (parse_at-joined q l (texts h) r.body refl (status_line-IsLine r c)
          (texts-IsLine h (sent_entries-IsEntry r.cseq r.headers r.body c.headers_clean))
        ∙ (ap (λ x. read_headers x (texts h))
              (read_status_line-build (record q { body = r.body }) r c)
            ∙ (first-text r _ c.cseq_int32 ∙ rest-texts r _ c)))

-- What a peer finds under a name.
unfoldable pub announced : Response → Text → Option Text
announced r name =
    if same (codes "Content-Length") name && not (is_empty r.body)
    then some (digits (length r.body))
    else if same (codes "CSeq") name
    then some (show_int r.cseq)
    else lookup name r.headers

found-length :
    (body : Text) (d : Dict Text) (k : Text)
    → lookup k (put_entries (length_entry body) d) ≡ (
        if same (codes "Content-Length") k && not (is_empty body)
        then some (digits (length body))
        else lookup k d)
unfolding put_entries length_entry is_empty
found-length [] d k = ground arith
found-length (c ∷ body) d k =
    lookup-put (codes "Content-Length") k (digits (length (c ∷ body))) d ∙ ground arith

found-cseq :
    (r : Response) (k : Text)
    → lookup (codes "CSeq") r.headers ≡ none
    → or_else (lookup k r.headers) (lookup k (put (codes "CSeq") (show_int r.cseq) []))
      ≡ (if same (codes "CSeq") k then some (show_int r.cseq) else lookup k r.headers)
unfolding lookup put
found-cseq r k h = elim (Bool-cases (same (codes "CSeq") k)) [
  | inl y ↦ let e : k ≡ codes "CSeq" = sym (same→≡ (codes "CSeq") k y) in rw (y, e, h) refl
  | inr n ↦ rw n (grind arith)
]

lookup-received :
    (r : Response) → Clean r → (name : Text) → lookup name (received r).headers ≡ announced r name
unfolding received announced
lookup-received r c name =
    let d = put (codes "CSeq") (show_int r.cseq) [] in
    found-length r.body (put_entries r.headers d) name
    ∙ ap
        (λ x.
          if same (codes "Content-Length") name && not (is_empty r.body)
          then some (digits (length r.body))
          else x)
        (lookup-put_entries r.headers d name c.headers_distinct ∙ found-cseq r name c.no_cseq)

-- A fresh object that parses what a clean response was built into has its number, status, reason and
-- body, and finds under every name what was announced.
pub parse-build_fields :
    (r : Response)
    → Clean r
    → (q : Response) × (parse (new_response (pos 0)) (build r) ≡ q)
      × (q.cseq ≡ r.cseq)
      × (q.status_code ≡ r.status_code)
      × (q.status_reason ≡ r.status_reason)
      × (q.body ≡ r.body)
      × ((name : Text) → lookup name q.headers ≡ announced r name)
unfolding received
parse-build_fields r c =
    (received r, parse-build-received r c, refl, refl, refl, refl, lookup-received r c)
