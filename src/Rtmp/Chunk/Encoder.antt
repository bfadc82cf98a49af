-- ===== src/Rtmp/Chunk/Encoder.antt =====
-- `ChunkStreamEncoder` of src/rtmp/rtmp_chunk_stream.cpp, over a link.
use rtsp_sdk.Common.{
  ℕ, zero, suc, ◌+◌, Bool, true, false, ◌||◌, Option, none, some, List, [], ◌∷◌, ◌++◌, length, take,
  drop, min, ltb, leb, ◌==◌, not, if◌then◌else◌,
}
use rtsp_sdk.Common.Bits.{shl, low_bits}
use rtsp_sdk.Common.Bytes.{be24, be32, le32}
use rtsp_sdk.Net.Link.{Link}
use rtsp_sdk.Rtmp.Chunk.Message.{RtmpMessage, ext_mark}

pub record Encoder : Type 0 where
  pub out_chunk_size : ℕ
  pub chunks_out : ℕ
  pub bytes_out : ℕ

abbrev pub new_encoder : Encoder
new_encoder = record { out_chunk_size = 128; chunks_out = 0; bytes_out = 0 }

unfoldable pub set_out_chunk_size : Encoder → ℕ → Encoder
set_out_chunk_size e size =
    let at_least = if ltb size 1 then 1 else size in
    record e { out_chunk_size = if ltb 0x7fff_ffff at_least then 0x7fff_ffff else at_least }

-- `msg.timestamp >= 0xFFFFFF`.
abbrev pub ext_ts : RtmpMessage → Bool
ext_ts msg = leb ext_mark msg.timestamp

-- `(fmt << 6) | (csid & 0x3F)`; the two parts fill disjoint bits.
unfoldable pub basic_header : ℕ → ℕ → ℕ
basic_header fmt csid = shl fmt 6 + low_bits csid 6

-- `hdr`: basic header, message header and, where it is needed, the extended timestamp.
unfoldable pub first_header : RtmpMessage → List ℕ
first_header msg =
    basic_header 0 msg.csid
    ∷ (be24 (if ext_ts msg then ext_mark else msg.timestamp)
        ++ (be24 (low_bits (length msg.payload) 32)
            ++ (msg.type_id
                ∷ (le32 msg.msg_stream_id ++ (if ext_ts msg then be32 msg.timestamp else [])))))

-- `cont_hdr`, in front of every further chunk.
unfoldable pub next_header : RtmpMessage → List ℕ
next_header msg = basic_header 3 msg.csid ∷ (if ext_ts msg then be32 msg.timestamp else [])

-- One chunk is on the wire.
unfoldable pub count_chunk : Encoder → List ℕ → Encoder
count_chunk e buf = record e { chunks_out = e.chunks_out + 1; bytes_out = e.bytes_out + length buf }

module _ (l : Link) where
  -- The loop over the further chunks, with `rest` the payload from `off` on. `none` is no result
  -- of the code: the fuel ran out.
  unfoldable pub write_rest :
      ℕ → Encoder → l.Conn → RtmpMessage → List ℕ → ℕ → Option (Encoder × l.Conn × Bool)
  write_rest zero e s msg rest timeout = none
  write_rest (suc f) e s msg rest timeout =
      let cbuf = next_header msg ++ take (min e.out_chunk_size (length rest)) rest in
      let sending = l.send_all s cbuf timeout in
      let more =
        write_rest f (count_chunk e cbuf) sending.0 msg
          (drop (min e.out_chunk_size (length rest)) rest) timeout in
      if length rest == 0
      then some (e, s, true)
      else if sending.1
      then more
      else some (e, sending.0, false)

  -- `writeMessage`: the encoder and the link after the call, and the result.
  unfoldable pub write_message :
      Encoder → l.Conn → RtmpMessage → ℕ → Option (Encoder × l.Conn × Bool)
  write_message e s msg timeout =
      if not (l.is_valid s)
      then some (e, s, false)
      else if ltb msg.csid 2 || ltb 63 msg.csid
      then some (e, s, false)
      else let first_slice = min e.out_chunk_size (length msg.payload) in
        let buf = first_header msg ++ take first_slice msg.payload in
        let sending = l.send_all s buf timeout in
        if sending.1
        then write_rest (length msg.payload + 1) (count_chunk e buf) sending.0 msg
            (drop first_slice msg.payload) timeout
        else some (e, sending.0, false)
