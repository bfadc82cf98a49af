-- ===== src/Rtsp/Request.antt =====
-- `RtspRequest` of src/rtsp-common/rtsp_request.cpp: parsing, building and the accessors.
pub mod Build
pub mod RoundTrip
pub mod Lookup
use rtsp_sdk.Common.{
  ℕ, suc, ◌+◌, Option, none, some, List, [], ◌∷◌, ◌++◌, map, take, drop, if◌then◌else◌,
}
use rtsp_sdk.Text.Chars.{Text, codes, lower, upper, is_blank, trim}
use rtsp_sdk.Text.Search.{same, find, find_char}
use rtsp_sdk.Text.Lines.{crlf, crlf2, lines, chomp, word, after_word}
use rtsp_sdk.Text.Numbers.{ℤ, negsuc, show_int, parse_int32_safe}
use rtsp_sdk.Text.Dict.{Dict, lookup, put}
use rtsp_sdk.Rtsp.Headers.{header_line, header_lines, length_entry, read_header}

pub data Method : Type 0 where
  unknown options describe setup play pause teardown : Method
  announce do_record get_parameter set_parameter : Method

pub record Request : Type 0 where
  pub method : Method
  pub uri : Text
  pub path : Text
  pub version : Text
  pub headers : Dict Text
  pub body : Text

unfoldable pub new_request : Request
new_request = record {
  method = unknown;
  uri = [];
  path = [];
  version = [];
  headers = [];
  body = [];
}

unfoldable pub method_to_string : Method → Text
method_to_string options = codes "OPTIONS"
method_to_string describe = codes "DESCRIBE"
method_to_string setup = codes "SETUP"
method_to_string play = codes "PLAY"
method_to_string pause = codes "PAUSE"
method_to_string teardown = codes "TEARDOWN"
method_to_string announce = codes "ANNOUNCE"
method_to_string do_record = codes "RECORD"
method_to_string get_parameter = codes "GET_PARAMETER"
method_to_string set_parameter = codes "SET_PARAMETER"
method_to_string unknown = codes "UNKNOWN"

unfoldable pub method_named : Text → Method
method_named s =
    if same s (codes "OPTIONS")
    then options
    else if same s (codes "DESCRIBE")
    then describe
    else if same s (codes "SETUP")
    then setup
    else if same s (codes "PLAY")
    then play
    else if same s (codes "PAUSE")
    then pause
    else if same s (codes "TEARDOWN")
    then teardown
    else if same s (codes "ANNOUNCE")
    then announce
    else if same s (codes "RECORD")
    then do_record
    else if same s (codes "GET_PARAMETER")
    then get_parameter
    else if same s (codes "SET_PARAMETER")
    then set_parameter
    else unknown

unfoldable pub parse_method : Text → Method
parse_method s = method_named (upper s)

unfoldable pub read_request_line : Request → Text → Request
read_request_line r line = record r {
  method = parse_method (word line);
  uri = word (after_word line);
  path = word (after_word line);
  version = word (after_word (after_word line));
}

unfoldable pub add_header : Request → Option (Text × Text) → Request
add_header r none = r
add_header r (some (name, value)) = record r { headers = put (lower name) value r.headers }

unfoldable pub read_headers : Request → List Text → Request
read_headers r [] = r
read_headers r (line ∷ ls) = read_headers (add_header r (read_header line)) ls

-- The lines of the header; without any, the request line is empty.
unfoldable pub read_head : Request → List Text → Request
read_head r [] = read_request_line r []
read_head r (line ∷ ls) = read_headers (read_request_line r line) ls

unfoldable pub parse_at : Request → Text → Option ℕ → Option Request
parse_at r message none = none
parse_at r message (some header_end) = some (
    read_head (record r { body = drop (header_end + 4) message })
      (map chomp (lines (take header_end message))))

-- `parse`; `none` is `false`, with the request left as it was.
unfoldable pub parse : Request → Text → Option Request
parse r message = parse_at r message (find crlf2 message)

abbrev pub value_or_empty : Option Text → Text
value_or_empty none = []
value_or_empty (some v) = v

unfoldable pub get_header : Request → Text → Text
get_header r name = value_or_empty (lookup (lower name) r.headers)

abbrev pub cseq_of : Option ℤ → ℤ
cseq_of none = negsuc 0
cseq_of (some v) = v

abbrev pub cseq_value : Option Text → ℤ
cseq_value none = negsuc 0
cseq_value (some t) = cseq_of (parse_int32_safe t)

unfoldable pub get_cseq : Request → ℤ
get_cseq r = cseq_value (lookup (codes "cseq") r.headers)

abbrev pub up_to : Text → Option ℕ → Text
up_to s none = s
up_to s (some i) = take i s

-- The session id without its parameters.
unfoldable pub get_session : Request → Text
get_session r =
    let session = get_header r (codes "Session") in
    trim is_blank (up_to session (find_char b';' session))

unfoldable pub build : Request → Text
build r =
    method_to_string r.method
    ++ (32
        ∷ (r.uri
            ++ (32
                ∷ (r.version
                    ++ (crlf
                        ++ (header_line (codes "CSeq") (show_int (get_cseq r))
                            ++ (header_lines r.headers
                                ++ (header_lines (length_entry r.body) ++ (crlf ++ r.body)))))))))

unfoldable pub set_method : Method → Request → Request
set_method m r = record r { method = m }

unfoldable pub set_uri : Text → Request → Request
set_uri u r = record r { uri = u }

unfoldable pub set_cseq : ℤ → Request → Request
set_cseq v r = record r { headers = put (codes "cseq") (show_int v) r.headers }

unfoldable pub set_header : Text → Text → Request → Request
set_header name value r = record r { headers = put (lower name) value r.headers }

unfoldable pub set_body : Text → Request → Request
set_body b r = record r { body = b }
