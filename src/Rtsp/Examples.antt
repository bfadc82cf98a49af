-- ===== src/Rtsp/Examples.antt =====
-- The theorems on requests and responses at concrete inputs.
use rtsp_sdk.Common.{◌≡◌, refl, some, [], ◌∷◌, arith}
use rtsp_sdk.Text.Chars.{
  Text, codes, is_space, is_blank, to_lower, Free, trim, drop_end, drop_while, cons_unless,
}
use rtsp_sdk.Text.Search.{same}
use rtsp_sdk.Text.Dict.{lookup}
use rtsp_sdk.Text.Numbers.{pos, in_int32}
use rtsp_sdk.Rtsp.Headers.{IsEntry}
use rtsp_sdk.Rtsp.Request.{Request, play, parse, build, new_request, get_header}
use rtsp_sdk.Rtsp.Request.Build.{IsWord}
use rtsp_sdk.Rtsp.Request.RoundTrip.{Clean}
use rtsp_sdk.Rtsp.Response.{Response, new_response}
use rtsp_sdk.Rtsp.Response as RtspResponse
use rtsp_sdk.Rtsp.Response.RoundTrip as RoundTrip
use rtsp_sdk.Rtsp.Response.StatusLine as ResponseLine
use rtsp_sdk.Rtsp.Request.Lookup.{IsMap, announced, parse-build_headers}

abbrev play_request : Request
play_request = record {
  method = play;
  uri = codes "rtsp://host/live";
  path = codes "/live";
  version = codes "RTSP/1.0";
  headers = (codes "cseq", codes "3") ∷ (codes "session", codes "ab 12") ∷ [];
  body = codes "x";
}

host-IsWord : IsWord (codes "rtsp://host/live")
unfolding is_space
host-IsWord = (λ e. cc, ground arith)

cseq-IsEntry : IsEntry (codes "cseq", codes "3")
unfolding is_blank trim drop_end drop_while cons_unless
cseq-IsEntry =
    ((ground arith, ground arith, ground arith), ((λ e. cc), refl, ground arith, ground arith))

session-IsEntry : IsEntry (codes "session", codes "ab 12")
unfolding is_blank trim drop_end drop_while cons_unless
session-IsEntry =
    ((ground arith, ground arith, ground arith), ((λ e. cc), refl, ground arith, ground arith))

version_plain : Free is_space (codes "RTSP/1.0")
unfolding is_space
version_plain = ground arith

request_Clean : Clean play_request
request_Clean = record {
  uri_word = host-IsWord;
  version_plain = version_plain;
  headers_clean = (cseq-IsEntry, (session-IsEntry, tt));
}

request_IsMap : IsMap play_request.headers
unfolding to_lower lookup same
request_IsMap = (refl, refl, (refl, refl, tt))

parse-build_headers_example :
    (q : Request) × (parse new_request (build play_request) ≡ some q)
    × (q.method ≡ play)
    × (q.uri ≡ play_request.uri)
    × (q.path ≡ play_request.uri)
    × (q.version ≡ play_request.version)
    × (q.body ≡ play_request.body)
    × ((name : Text) → get_header q name ≡ announced play_request name)
parse-build_headers_example = parse-build_headers play_request request_Clean request_IsMap

abbrev setup_response : Response
setup_response = record {
  cseq = pos 4;
  status_code = pos 200;
  status_reason = codes "OK";
  headers = (codes "Session", codes "ab12") ∷ [];
  body = [];
}

response-IsEntry : IsEntry (codes "Session", codes "ab12")
unfolding is_blank trim drop_end drop_while cons_unless
response-IsEntry =
    ((ground arith, ground arith, ground arith), ((λ e. cc), refl, ground arith, ground arith))

response_Clean : ResponseLine.Clean setup_response
unfolding in_int32 lookup same
response_Clean = record {
  cseq_int32 = refl;
  status_int32 = refl;
  reason_line = (ground arith, ground arith);
  headers_clean = (response-IsEntry, tt);
  headers_distinct = (refl, tt);
  no_cseq = refl;
}

parse-build_fields_example :
    (q : Response) × (RtspResponse.parse (new_response (pos 0)) (RtspResponse.build setup_response)
      ≡ q)
    × (q.cseq ≡ pos 4)
    × (q.status_code ≡ pos 200)
    × (q.status_reason ≡ codes "OK")
    × (q.body ≡ [])
    × ((name : Text) → lookup name q.headers ≡ RoundTrip.announced setup_response name)
parse-build_fields_example = RoundTrip.parse-build_fields setup_response response_Clean
