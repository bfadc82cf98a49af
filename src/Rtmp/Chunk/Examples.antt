-- ===== src/Rtmp/Chunk/Examples.antt =====
-- Concrete runs of the chunk stream, and its theorems at concrete inputs.
use rtsp_sdk.Common.{ℕ, ◌≡◌, refl, true, List, [], ◌∷◌, ◌++◌, arith, inl}
use rtsp_sdk.Net.Socket.{Socket, wrote, again, socket_link, send_all, send_all-Sends, Sends}
use rtsp_sdk.Rtmp.Chunk.Message.{RtmpMessage}
use rtsp_sdk.Rtmp.Chunk.Encoder.{write_message, next_header, Encoder}
use rtsp_sdk.Rtmp.Chunk.Decoder.{Decoder, new_cs, need_more, parse_one_chunk, feed}
use rtsp_sdk.Rtmp.Chunk.Landing.{IsSendable, in_flight, landed}
use rtsp_sdk.Rtmp.Chunk.Frames.{Writes, write_message-Writes, message_chunks}
use rtsp_sdk.Rtmp.Chunk.RoundTrip.{feed-all_chunks, all_chunks, Delivers}
use rtsp_sdk.Rtmp.Chunk.NextLanding.{next-landed_beyond}
use rtsp_sdk.Rtmp.Chunk.Split.{delta_twice, delta_header, message}
use rtsp_sdk.Rtmp.Chunk.Total.{Ends, feed-Ends}
use rtsp_sdk.Common.Bytes.{be32}

-- A frame of six bytes at time 40, in chunks of four.
abbrev video : RtmpMessage
video = record {
  csid = 5;
  type_id = 9;
  msg_stream_id = 1;
  timestamp = 40;
  payload = 1 ∷ 2 ∷ 3 ∷ 4 ∷ 5 ∷ 6 ∷ [];
}

abbrev small_encoder : Encoder
small_encoder = record { out_chunk_size = 4; chunks_out = 0; bytes_out = 0 }

abbrev small_decoder : Decoder
small_decoder = record {
  in_chunk_size = 4;
  cs_states = λ c. new_cs;
  buffer = [];
  bytes_in = 0;
  messages_in = 0;
}

-- The kernel takes ten bytes, is interrupted, and takes the rest.
abbrev socket : Socket
socket = record {
  is_open = true;
  schedule = wrote 10 ∷ again ∷ wrote 90 ∷ wrote 90 ∷ [];
  sent = 7 ∷ [];
}

video-IsSendable : IsSendable video
video-IsSendable = omega arith

write_message-Writes_example :
    Writes socket_link small_encoder socket
      (message_chunks 4 video)
      (write_message socket_link small_encoder socket video 1000)
write_message-Writes_example =
    write_message-Writes socket_link small_encoder socket video 1000 (omega arith)

send_all-Sends_example : Sends true (1 ∷ 2 ∷ []) 0 (7 ∷ []) (send_all socket (1 ∷ 2 ∷ []))
send_all-Sends_example = send_all-Sends socket (1 ∷ 2 ∷ [])

feed-all_chunks_example :
    Delivers small_decoder []
      (video ∷ video ∷ [])
      (feed small_decoder (all_chunks 4 (video ∷ video ∷ [])) [])
feed-all_chunks_example =
    feed-all_chunks (video ∷ video ∷ []) small_decoder [] (video-IsSendable, (video-IsSendable, tt))
      (inl (omega arith), (inl (omega arith), tt)) (omega arith) (λ c. refl) refl

-- A day after the start the timestamp needs the extended form.
abbrev late_video : RtmpMessage
late_video = record video { timestamp = 86_400_000 }

late_video-IsSendable : IsSendable late_video
late_video-IsSendable = omega arith

abbrev late_decoder : Decoder
late_decoder = record small_decoder {
  cs_states = λ c. in_flight new_cs late_video (1 ∷ 2 ∷ 3 ∷ 4 ∷ []);
}

-- The two bytes that are missing are taken from the extended timestamp 05 26 5c 00.
next-landed_beyond_example :
    parse_one_chunk late_decoder (next_header late_video ++ 5 ∷ 6 ∷ []) []
    ≡ landed late_decoder new_cs late_video (1 ∷ 2 ∷ 3 ∷ 4 ∷ 5 ∷ 0x26 ∷ []) 3 []
unfolding be32
next-landed_beyond_example =
    next-landed_beyond late_decoder late_video late_video-IsSendable new_cs 1 (2 ∷ 3 ∷ 4 ∷ []) refl
      (0x05 ∷ 0x26 ∷ []) (0x5c ∷ 0x00 ∷ 5 ∷ 6 ∷ []) [] (omega arith) (omega arith) refl (5 ∷ 6 ∷ [])
      refl

abbrev at_40 : Decoder
at_40 = record small_decoder { cs_states = λ c. record new_cs { timestamp = 40 } }

abbrev chunk_header : List ℕ
chunk_header = delta_header 5 20 2 9

delta_twice_example :
    ((parse_one_chunk at_40 (chunk_header ++ 1 ∷ 2 ∷ []) []).1
      ≡ message 5 9 (1 ∷ 2 ∷ []) new_cs 60 ∷ [])
    × ((parse_one_chunk at_40 chunk_header []).2 ≡ need_more)
    × ((parse_one_chunk
          (parse_one_chunk at_40 chunk_header []).0
          (chunk_header ++ 1 ∷ 2 ∷ [])
          (parse_one_chunk at_40 chunk_header []).1).1
        ≡ message 5 9 (1 ∷ 2 ∷ []) new_cs 80 ∷ [])
delta_twice_example =
    delta_twice 5 20 9 (1 ∷ 2 ∷ []) (omega arith) (omega arith) (omega arith) (omega arith)
      (omega arith) at_40 [] refl (omega arith)

feed-Ends_example :
    Ends
      (record small_decoder { bytes_in = 2; buffer = 0 ∷ 0 ∷ [] })
      []
      (feed small_decoder (0 ∷ 0 ∷ []) [])
feed-Ends_example = feed-Ends small_decoder (0 ∷ 0 ∷ []) []
