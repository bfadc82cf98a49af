-- ===== src/Server/Connection/Feed.antt =====
-- `RtspConnection::handle` of src/server/rtsp_server.cpp: the buffer of the connection, cut into
-- interleaved packets and requests.
pub mod Looks
pub mod Whole
use rtsp_sdk.Common.{
  ℕ, zero, suc, ◌+◌, ◌-◌, Option, none, some, List, [], ◌∷◌, ◌++◌, length, take, drop, ltb, ◌==◌,
  if◌then◌else◌,
}
use rtsp_sdk.Text.Chars.{Text, codes, lower}
use rtsp_sdk.Text.Search.{find}
use rtsp_sdk.Text.Lines.{crlf, crlf2}
use rtsp_sdk.Text.Numbers.{parse_uint64_safe}
use rtsp_sdk.Rtsp.Request.{parse}
use rtsp_sdk.Server.Session.Interleaved.{skip_packet}
use rtsp_sdk.Server.Connection.{Env, State}
use rtsp_sdk.Server.Connection.Requests.{process_request, touch_session}

abbrev pub max_header : ℕ
max_header = 32768

abbrev pub max_body : ℕ
max_body = 65536

abbrev pub max_buffer : ℕ
max_buffer = 196608

-- The number behind `Content-Length:`; `none` closes the connection.
abbrev pub within_body : Option ℕ → Option ℕ
within_body none = none
within_body (some v) = if ltb max_body v then none else some v

abbrev pub length_at : Text → ℕ → Option ℕ → Option ℕ
length_at header p none = some 0
length_at header p (some n) = within_body (parse_uint64_safe (take (n - 15) (drop (p + 15) header)))

abbrev pub length_from : Text → Option ℕ → Option ℕ
length_from header none = some 0
length_from header (some p) = length_at header p (find crlf (drop p (lower header)))

unfoldable pub content_length : Text → Option ℕ
content_length header = length_from header (find (codes "content-length:") (lower header))

-- What stands at the front of the buffer: too little yet, too much, a packet with the bytes behind
-- it, or a request with the bytes behind it.
pub data Look : Type 0 where
  wait close : Look
  packet : Text → Look
  request : Text → Text → Look

abbrev pub packet_look : Option Text → Look
packet_look none = wait
packet_look (some rest) = packet rest

unfoldable pub sized : Text → ℕ → Option ℕ → Look
sized b header_end none = close
sized b header_end (some n) =
    if ltb (length b) (header_end + n)
    then wait
    else request (take (header_end + n) b) (drop (header_end + n) b)

unfoldable pub request_look : Text → Option ℕ → Look
request_look b none = if ltb max_header (length b) then close else wait
request_look b (some pos) =
    if ltb max_header (pos + 4)
    then close
    else sized b (pos + 4) (content_length (take (pos + 4) b))

unfoldable pub look : Text → Look
look [] = wait
look (c ∷ s) =
    if c == b'$'
    then packet_look (skip_packet (c ∷ s))
    else request_look (c ∷ s) (find crlf2 (c ∷ s))

-- The loops, over what a packet and a request do to a state. Of the buffer nothing is left when the
-- connection is closed. Every message uses up bytes, so fuel above their number is enough.
module _ {ℓ} {S : Type ℓ} (touched : S → S) (process : Text → S → S) where
  unfoldable pub drain : ℕ → Text → S → S × Option Text
  drain zero b s = (s, some b)
  drain (suc fuel) b s = elim (look b) [
    | wait ↦ (s, some b)
    | close ↦ (s, none)
    | packet rest ↦ drain fuel rest (touched s)
    | request message rest ↦ drain fuel rest (process message s)
  ]

  -- One `recv` of some bytes.
  abbrev pub receive_in : Option Text → S → Text → S × Option Text
  receive_in none s bytes = (s, none)
  receive_in (some buffer) s bytes =
      if ltb max_buffer (length (buffer ++ bytes))
      then (s, none)
      else drain (suc (length (buffer ++ bytes))) (buffer ++ bytes) s

  unfoldable pub receive : S × Option Text → Text → S × Option Text
  receive (s, buffer) bytes = receive_in buffer s bytes

  unfoldable pub receive_all : S × Option Text → List Text → S × Option Text
  receive_all c [] = c
  receive_all c (bytes ∷ pieces) = receive_all (receive c bytes) pieces

-- The loop of a connection, which meets `envs n` at its message number `n`.
abbrev pub Served : Type 0
Served = ℕ × State

unfoldable pub touch_served : (ℕ → Env) → Served → Served
touch_served envs (n, st) = (suc n, touch_session (envs n) st)

unfoldable pub process_served : (ℕ → Env) → Text → Served → Served
process_served envs message (n, st) = (suc n, process_request (envs n) message st)

unfoldable pub handle : (ℕ → Env) → Served × Option Text → List Text → Served × Option Text
handle envs c pieces = receive_all (touch_served envs) (process_served envs) c pieces
