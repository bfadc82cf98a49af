-- ===== src/Rtsp/Response.antt =====
-- `RtspResponse` of src/rtsp-common/rtsp_request.cpp: parsing, building and the usual answers.
pub mod StatusLine
pub mod RoundTrip
use rtsp_sdk.Common.{
  ℕ, zero, ◌+◌, Option, none, some, List, [], ◌∷◌, ◌++◌, map, length, take, drop, ltb, ◌==◌,
  if◌then◌else◌,
}
use rtsp_sdk.Text.Chars.{Text, codes}
use rtsp_sdk.Text.Search.{same, find}
use rtsp_sdk.Text.Lines.{crlf, crlf2, lines, chomp, word, after_word}
use rtsp_sdk.Text.Numbers.{ℤ, pos, show_int, parse_int32_safe}
use rtsp_sdk.Text.Dict.{Dict, put}
use rtsp_sdk.Rtsp.Headers.{header_line, header_lines, length_entry, read_header}

pub record Response : Type 0 where
  pub cseq : ℤ
  pub status_code : ℤ
  pub status_reason : Text
  pub headers : Dict Text
  pub body : Text

unfoldable pub new_response : ℤ → Response
new_response cseq = record {
  cseq = cseq;
  status_code = pos 200;
  status_reason = codes "OK";
  headers = [];
  body = [];
}

unfoldable pub set_status : ℤ → Text → Response → Response
set_status code reason r = record r { status_code = code; status_reason = reason }

unfoldable pub set_cseq : ℤ → Response → Response
set_cseq v r = record r { cseq = v }

unfoldable pub set_header : Text → Text → Response → Response
set_header name value r = record r { headers = put name value r.headers }

unfoldable pub set_body : Text → Response → Response
set_body b r = record r { body = b }

unfoldable pub set_session : Text → Response → Response
set_session id r = set_header (codes "Session") id r

unfoldable pub set_transport : Text → Response → Response
set_transport t r = set_header (codes "Transport") t r

unfoldable pub set_content_type : Text → Response → Response
set_content_type t r = set_header (codes "Content-Type") t r

abbrev pub number_or_zero : Option ℤ → ℤ
number_or_zero none = pos 0
number_or_zero (some v) = v

-- Without one blank in front.
unfoldable pub drop_blank : Text → Text
drop_blank [] = []
drop_blank (c ∷ s) = if c == 32 then s else c ∷ s

unfoldable pub read_status_line : Response → Text → Response
read_status_line r line = record r {
  status_code = number_or_zero (parse_int32_safe (word (after_word line)));
  status_reason = drop_blank (after_word (after_word line));
}

unfoldable pub add_header : Response → Option (Text × Text) → Response
add_header r none = r
add_header r (some (name, value)) = record r {
  headers = put name value r.headers;
  cseq = if same name (codes "CSeq") then number_or_zero (parse_int32_safe value) else r.cseq;
}

unfoldable pub read_headers : Response → List Text → Response
read_headers r [] = r
read_headers r (line ∷ ls) = read_headers (add_header r (read_header line)) ls

unfoldable pub read_head : Response → List Text → Response
read_head r [] = read_status_line r []
read_head r (line ∷ ls) = read_headers (read_status_line r line) ls

abbrev pub end_or_size : Text → Option ℕ → ℕ
end_or_size message none = length message
end_or_size message (some i) = i

-- The body is replaced only if the message has bytes behind its header.
unfoldable pub parse_at : Response → Text → ℕ → Response
parse_at r message header_end =
    read_head
      (record r {
        body =
            if ltb (header_end + 4) (length message) then drop (header_end + 4) message else r.body;
      })
      (map chomp (lines (take header_end message)))

-- `parse`, which is never `false`.
unfoldable pub parse : Response → Text → Response
parse r message = parse_at r message (end_or_size message (find crlf2 message))

unfoldable pub build : Response → Text
build r =
    codes "RTSP/1.0 "
    ++ (show_int r.status_code
        ++ (32
            ∷ (r.status_reason
                ++ (crlf
                    ++ (header_line (codes "CSeq") (show_int r.cseq)
                        ++ (header_lines r.headers
                            ++ (header_lines (length_entry r.body) ++ (crlf ++ r.body))))))))

unfoldable pub create_ok : ℤ → Response
create_ok cseq = new_response cseq

unfoldable pub create_error : ℤ → ℤ → Text → Response
create_error cseq code reason = set_status code reason (new_response cseq)

unfoldable pub create_options : ℤ → Response
create_options cseq =
    set_header (codes "Public") (codes "DESCRIBE, SETUP, TEARDOWN, PLAY, PAUSE, OPTIONS")
      (new_response cseq)

unfoldable pub create_describe : ℤ → Text → Response
create_describe cseq sdp =
    set_body sdp (set_content_type (codes "application/sdp") (new_response cseq))

unfoldable pub create_setup : ℤ → Text → Text → Response
create_setup cseq session_id transport =
    set_session session_id (set_transport transport (new_response cseq))

unfoldable pub create_play : ℤ → Text → Response
create_play cseq session_id = set_session session_id (new_response cseq)

unfoldable pub create_teardown : ℤ → Response
create_teardown cseq = new_response cseq
