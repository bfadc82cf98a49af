-- ===== src/Rtmp/Chunk/Headers.antt =====
-- The headers that the encoder of src/rtmp/rtmp_chunk_stream.cpp writes, as its decoder reads them.
use rtsp_sdk.Common.{ℕ, suc, ◌+◌, ◌^◌, ◌≤◌, ◌<◌, ◌≡◌, some, List, ◌∷◌, ◌++◌, length, arith, le→ltb}
use rtsp_sdk.Common.Bits.{shl, shr, low_bits}
use rtsp_sdk.Common.Bytes.{be24, le32, read_be24, read_le32, read_be24-be24, read_le32-le32}
use rtsp_sdk.Rtmp.Chunk.Message.{RtmpMessage}
use rtsp_sdk.Rtmp.Chunk.Encoder.{basic_header}
use rtsp_sdk.Rtmp.Chunk.Decoder.{
  Decoder, CsState, read_basic, header_need, read_fields, take_ext_ts, parse_one_chunk,
}

read_basic-basic_header :
    (fmt c : ℕ) (p : List ℕ)
    → fmt < 4
    → 2 ≤ c
    → c < 64
    → read_basic (basic_header fmt c ∷ p) ≡ some (1, c)
unfolding read_basic basic_header
read_basic-basic_header fmt c p hf lo hi =
    let e : low_bits (shl fmt 6 + low_bits c 6) 6 ≡ c = omega arith in rw e (ground arith)

fmt_of_basic_header : (fmt c : ℕ) → fmt < 4 → low_bits (shr (basic_header fmt c) 6) 2 ≡ fmt
unfolding basic_header
fmt_of_basic_header fmt c hf = omega arith

-- A chunk with a basic header of one byte and its whole message header goes on to the payload.
pub parse_one_chunk-basic_header :
    (d : Decoder) (fmt c : ℕ) (p : List ℕ) (out : List RtmpMessage)
    → fmt < 4
    → 2 ≤ c
    → c < 64
    → header_need fmt ≤ length p
    → parse_one_chunk d (basic_header fmt c ∷ p) out
      ≡ take_ext_ts d fmt c
          (read_fields fmt (d.cs_states c) p)
          (basic_header fmt c ∷ p)
          (1 + header_need fmt)
          out
unfolding parse_one_chunk
parse_one_chunk-basic_header d fmt c p out hf lo hi h = rw (
  le→ltb (suc (length p)) 1 (omega arith),
  read_basic-basic_header fmt c p hf lo hi,
  fmt_of_basic_header fmt c hf,
  le→ltb (suc (length p)) (1 + header_need fmt) (omega arith),
)

abbrev pub message_header : ℕ → ℕ → ℕ → ℕ → List ℕ → List ℕ
message_header ts len ty sid rest = be24 ts ++ (be24 len ++ (ty ∷ (le32 sid ++ rest)))

pub read_fields-message_header :
    (st : CsState) (ts len ty sid : ℕ) (rest : List ℕ)
    → ts < 2 ^ 24
    → len < 2 ^ 24
    → sid < 2 ^ 32
    → read_fields 0 st (message_header ts len ty sid rest)
      ≡ record { ts_or_delta = ts; msg_len = len; type_id = ty; stream_id = sid }
unfolding read_fields be24 le32 read_be24 read_le32
read_fields-message_header st ts len ty sid rest hts hlen hsid = cc (
  read_be24-be24 ts (be24 len ++ (ty ∷ (le32 sid ++ rest))) hts,
  read_be24-be24 len (ty ∷ (le32 sid ++ rest)) hlen,
  read_le32-le32 sid rest hsid,
)
