-- ===== src/Rtsp/Request/Lookup.antt =====
-- The headers of `RtspRequest`: what a lookup finds after a setter, and after a request was sent.
use rtsp_sdk.Common.{
  ◌≡◌, refl, sym, ap, ◌∙◌, Bool, true, false, not, ◌&&◌, Option, none, some, [], ◌∷◌, ◌++◌, length,
  if◌then◌else◌, arith, Bool-cases, inl, inr,
}
use rtsp_sdk.Text.Chars.{Text, codes, lower, to_lower}
use rtsp_sdk.Text.Search.{same, same_iff, same→≡, is_empty}
use rtsp_sdk.Text.Numbers.{ℤ, show_int, in_int32, parse_int32_safe-show_int, digits, digits_on}
use rtsp_sdk.Text.Dict.{Dict, lookup, put, lookup-put, lookup-put_self}
use rtsp_sdk.Rtsp.Headers.{length_entry}
use rtsp_sdk.Rtsp.Headers.Entries.{sent_entries}
use rtsp_sdk.Rtsp.Request.{
  Request, new_request, get_header, value_or_empty, set_header, set_cseq, get_cseq, parse, build,
}
use rtsp_sdk.Rtsp.Request.Build.{sent}
use rtsp_sdk.Rtsp.Request.RoundTrip.{Clean, put_all, received, parse-build}

value-if :
    (b : Bool) (v : Text) (o : Option Text)
    → value_or_empty (if b then some v else o) ≡ (if b then v else value_or_empty o)
value-if true v o = refl
value-if false v o = refl

-- A header that was set is found under its name in any case, and the others are as they were.
pub get_header-set_header :
    (n m v : Text) (r : Request)
    → get_header (set_header n v r) m ≡ (if same (lower n) (lower m) then v else get_header r m)
unfolding get_header set_header
get_header-set_header n m v r =
    ap value_or_empty (lookup-put (lower n) (lower m) v r.headers)
    ∙ value-if (same (lower n) (lower m)) v (lookup (lower m) r.headers)

pub get_cseq-set_cseq : (v : ℤ) (r : Request) → in_int32 v ≡ true → get_cseq (set_cseq v r) ≡ v
unfolding get_cseq set_cseq
get_cseq-set_cseq v r h =
    rw (lookup-put_self (codes "cseq") (show_int v) r.headers, parse_int32_safe-show_int v h) refl

-- Entries under different names, all of them in lower case, as `headers_` has them.
abbrev pub IsMap : Dict Text → Type 0
IsMap [] = Unit
IsMap (e ∷ h) = (lower e.0 ≡ e.0) × (lookup e.0 h ≡ none) × IsMap h

abbrev pub or_else : Option Text → Option Text → Option Text
or_else none p = p
or_else (some v) p = some v

lookup-put_all :
    (h : Dict Text) (d : Dict Text) (k : Text)
    → IsMap h
    → lookup k (put_all h d) ≡ or_else (lookup k h) (lookup k d)
unfolding put_all lookup
lookup-put_all [] d k m = refl
lookup-put_all ((n, v) ∷ h) d k m =
    let low : lower n ≡ n = m.0 in
    let new : lookup n h ≡ none = m.1 in
    lookup-put_all h (put (lower n) v d) k m.2
    ∙ rw low (rw (lookup-put n k v d) (ground (arith, same_iff n k)))

put_all-append : (g h d : Dict Text) → put_all (g ++ h) d ≡ put_all h (put_all g d)
unfolding put_all
put_all-append [] h d = refl
put_all-append ((n, v) ∷ g) h d = put_all-append g h (put (lower n) v d)

-- What a peer finds under a name: the length of a body, the number that was sent, and otherwise
-- the header itself.
unfoldable pub announced : Request → Text → Text
announced r name =
    if same (codes "content-length") (lower name) && not (is_empty r.body)
    then digits (length r.body)
    else if same (codes "cseq") (lower name)
    then value_or_empty (or_else (lookup (codes "cseq") r.headers) (some (codes "-1")))
    else get_header r name

found-length :
    (body : Text) (d : Dict Text) (k : Text)
    → value_or_empty (lookup k (put_all (length_entry body) d)) ≡ (
        if same (codes "content-length") k && not (is_empty body)
        then digits (length body)
        else value_or_empty (lookup k d))
unfolding put_all length_entry is_empty to_lower
found-length [] d k = ground arith
found-length (c ∷ body) d k =
    let n = codes "content-length" in
    ap value_or_empty (lookup-put n k (digits (length (c ∷ body))) d) ∙ ground arith

-- The entry in front carries the number of the request, or -1.
no_number :
    (r : Request) (o : Option Text)
    → lookup (codes "cseq") r.headers ≡ o
    → or_else o (some (show_int (get_cseq r))) ≡ or_else o (some (codes "-1"))
unfolding get_cseq show_int digits digits_on
no_number r none h = rw h refl
no_number r (some v) h = refl

found-cseq :
    (r : Request) (k : Text)
    → value_or_empty
        (or_else (lookup k r.headers) (lookup k (put (codes "cseq") (show_int (get_cseq r)) [])))
      ≡ (if same (codes "cseq") k
          then value_or_empty (or_else (lookup (codes "cseq") r.headers) (some (codes "-1")))
          else value_or_empty (lookup k r.headers))
unfolding lookup put
found-cseq r k = elim (Bool-cases (same (codes "cseq") k)) [
  | inl y ↦
      let e : k ≡ codes "cseq" = sym (same→≡ (codes "cseq") k y) in
      rw (y, e) (ap value_or_empty (no_number r (lookup (codes "cseq") r.headers) refl))
  | inr n ↦ rw n (grind arith)
]

pub get_header-received :
    (r : Request)
    → IsMap r.headers
    → (name : Text) → get_header (received new_request r) name ≡ announced r name
unfolding get_header received announced sent sent_entries put_all new_request to_lower
get_header-received r m name =
    let k = lower name in
    let d = put (codes "cseq") (show_int (get_cseq r)) [] in
    ap (λ x. value_or_empty (lookup k x)) (put_all-append r.headers (length_entry r.body) d)
    ∙ (found-length r.body (put_all r.headers d) k
        ∙ ap
            (λ x.
              if same (codes "content-length") k && not (is_empty r.body)
              then digits (length r.body)
              else x)
            (ap value_or_empty (lookup-put_all r.headers d k m) ∙ found-cseq r k))

-- A fresh object that parses what a clean request, with its headers under different names in lower
-- case, was built into has its method, words and body, the URI also for the path, and finds under
-- every name, in any case, what was announced.
pub parse-build_headers :
    (r : Request)
    → Clean r
    → IsMap r.headers
    → (q : Request) × (parse new_request (build r) ≡ some q)
      × (q.method ≡ r.method)
      × (q.uri ≡ r.uri)
      × (q.path ≡ r.uri)
      × (q.version ≡ r.version)
      × (q.body ≡ r.body)
      × ((name : Text) → get_header q name ≡ announced r name)
unfolding received
parse-build_headers r c m = (
  received new_request r,
  parse-build new_request r c,
  refl,
  refl,
  refl,
  refl,
  refl,
  get_header-received r m,
)
