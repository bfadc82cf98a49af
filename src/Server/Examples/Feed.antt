-- ===== src/Server/Examples/Feed.antt =====
-- The theorem on the buffer of a connection at a concrete input.
use rtsp_sdk.Common.{
  ◌≤◌, ◌≡◌, refl, inl, inr, some, List, [], ◌∷◌, ◌++◌, All, length, drop, take, arith,
}
use rtsp_sdk.Common.Bytes.{read_be16}
use rtsp_sdk.Server.Connection.Feed.{handle, touch_served, process_served, content_length}
use rtsp_sdk.Server.Connection.Feed.Looks.{IsRequest, IsPacket}
use rtsp_sdk.Server.Connection.Feed.Whole.{IsMessage, act_all, handle-whole}
use rtsp_sdk.Text.Chars.{
  Text, codes, to_lower, trim, drop_end, drop_while, is_space, cons_unless, is_digit,
}
use rtsp_sdk.Text.Numbers.{parse_uint64_safe, if_below, unsigned_value, trim_copy, value, value_on}
use rtsp_sdk.Text.Search.{starts_with, find}
use rtsp_sdk.Server.Examples.{an_env, live_server, connected}

-- A request with a body.
abbrev sized_text : Text
sized_text = codes "SET_PARAMETER rtsp://h/ RTSP/1.0\r\nCSeq: 1\r\nContent-Length: 3\r\n\r\nabc"

sized-IsRequest : IsRequest sized_text
unfolding find starts_with content_length to_lower parse_uint64_safe if_below unsigned_value
    trim_copy trim drop_end drop_while is_space cons_unless value value_on is_digit
sized-IsRequest = record {
  first = (b'S', drop 1 sized_text, refl, refl);
  pos = 60;
  body = 3;
  ends = refl;
  short = omega arith;
  valid = refl;
  body_short = omega arith;
  whole = refl;
}

abbrev a_packet : Text
a_packet = b'$' ∷ 0 ∷ 0 ∷ 1 ∷ 7 ∷ []

data-IsPacket : IsPacket a_packet
unfolding read_be16
data-IsPacket = record { first = (drop 1 a_packet, refl); field = refl; short = omega arith }

abbrev both : List Text
both = sized_text ∷ a_packet ∷ []

both-IsMessage : All IsMessage both
both-IsMessage = (inl sized-IsRequest, (inr data-IsPacket, tt))

-- The request and the packet come in three pieces, none of which ends where a message ends.
abbrev pieces : List Text
pieces = take 10 sized_text ∷ (drop 10 sized_text ++ take 2 a_packet) ∷ drop 2 a_packet ∷ []

small_pieces : All (λ p. length p ≤ 4096) pieces
small_pieces = ground arith

handle-whole_example : handle (λ n. an_env) ((0, connected live_server), some []) pieces ≡ (
  act_all
      (touch_served (λ n. an_env))
      (process_served (λ n. an_env))
      both
      both-IsMessage
      (0, connected live_server),
  some [],
)
handle-whole_example =
    handle-whole (λ n. an_env) pieces both both-IsMessage (0, connected live_server) refl
      small_pieces
