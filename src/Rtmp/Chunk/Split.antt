-- ===== src/Rtmp/Chunk/Split.antt =====
-- `parseOneChunk` of src/rtmp/rtmp_chunk_stream.cpp writes the stream's state before it knows that
-- the payload is complete.
use rtsp_sdk.Common.{
  ℕ, ◌+◌, ◌-◌, ◌%◌, ◌^◌, ◌≤◌, ◌<◌, ◌≡◌, refl, ap, ◌∙◌, true, false, List, [], ◌∷◌, ◌++◌, length,
  drop, min, ◌==◌, arith, append-nil, take_all, le→ltb, lt→ltb,
}
use rtsp_sdk.Common.Bytes.{lengths, be24, read_be24-be24}
use rtsp_sdk.Rtmp.Chunk.Message.{RtmpMessage, ext_mark}
use rtsp_sdk.Rtmp.Chunk.Encoder.{basic_header}
use rtsp_sdk.Rtmp.Chunk.Headers.{parse_one_chunk-basic_header}
use rtsp_sdk.Rtmp.Chunk.Decoder.{
  Decoder, CsState, need_more, parse_one_chunk, set_cs, take_ext_ts, take_payload, need_ext_ts,
  update_cs, read_fields, header_need,
}

-- A chunk of format 1: a delta, a length and a type, and the payload behind it.
abbrev pub delta_header : ℕ → ℕ → ℕ → ℕ → List ℕ
delta_header c delta len ty = basic_header 1 c ∷ (be24 delta ++ (be24 len ++ (ty ∷ [])))

-- The message on stream `c` at a time.
abbrev pub message : ℕ → ℕ → List ℕ → CsState → ℕ → RtmpMessage
message c ty payload st t = record {
  csid = c;
  type_id = ty;
  msg_stream_id = st.msg_stream_id;
  timestamp = t;
  payload = payload;
}

-- The clock after a delta, in 32 bits.
abbrev pub stamped : ℕ → ℕ → ℕ
stamped delta t = (t + delta) % 2 ^ 32

module _ (c delta ty : ℕ) (payload : List ℕ) (lo : 2 ≤ c) (hi : c < 64) (small : delta < ext_mark)
    (short : length payload < 2 ^ 24) (some_payload : 0 < length payload) where
  abbrev header : List ℕ
  header = delta_header c delta (length payload) ty

  delta_fields :
      (d : Decoder) (rest : List ℕ) (out : List RtmpMessage)
      → parse_one_chunk d (header ++ rest) out
        ≡ take_payload d c
            (update_cs 1 (d.cs_states c) (record {
              ts_or_delta = delta;
              msg_len = length payload;
              type_id = ty;
              stream_id = (d.cs_states c).msg_stream_id;
            }))
            (header ++ rest)
            8
            out
  unfolding be24 header_need take_ext_ts need_ext_ts read_fields
  delta_fields d rest out =
      let p = be24 delta ++ (be24 (length payload) ++ (ty ∷ rest)) in
      let low : (delta == ext_mark) ≡ false = ground arith in
      parse_one_chunk-basic_header d 1 c p out (omega arith) lo hi (omega arith)
      ∙ rw (
        read_be24-be24 delta (be24 (length payload) ++ (ty ∷ rest)) (omega arith),
        read_be24-be24 (length payload) (ty ∷ rest) short,
        low,
      )

  -- Where the whole payload is there, the chunk is a message at the sum of the clock and the delta.
  whole_chunk :
      (d : Decoder) (out : List RtmpMessage)
      → (d.cs_states c).partial ≡ []
      → length payload ≤ d.in_chunk_size
      → (parse_one_chunk d (header ++ payload) out).1
        ≡ out
          ++ (message c ty payload (d.cs_states c) (stamped delta (d.cs_states c).timestamp) ∷ [])
  unfolding take_payload update_cs be24
  whole_chunk d out empty fits =
      let n = length payload in
      let src = header ++ payload in
      let slice : min (n - 0) d.in_chunk_size ≡ n = omega arith in
      let same : (n == n) ≡ true = ground arith in
      let here : drop 8 src ≡ payload = refl in
      rw (
        delta_fields d payload out,
        empty,
        slice,
        le→ltb n 0 (omega arith),
        le→ltb (length src) (8 + n) (omega lengths),
        here,
        take_all payload n (omega arith),
        same,
      )

  -- The state of the stream once its header was read.
  abbrev clocked : CsState → CsState
  clocked st = record {
    timestamp = stamped delta st.timestamp;
    timestamp_delta = delta;
    msg_length = length payload;
    msg_type_id = ty;
    msg_stream_id = st.msg_stream_id;
    partial = [];
    has_last_fmt0_or_1 = true;
    last_ts_was_delta = st.last_ts_was_delta;
  }

  header_only :
      (d : Decoder) (out : List RtmpMessage)
      → (d.cs_states c).partial ≡ []
      → 1 ≤ d.in_chunk_size
      → parse_one_chunk d header out
        ≡ (record d { cs_states = set_cs d.cs_states c (clocked (d.cs_states c)) }, out, need_more)
  unfolding take_payload update_cs be24
  header_only d out empty size = rw (← append-nil header) (
      rw (
        delta_fields d [] out,
        empty,
        le→ltb (length payload) 0 (omega arith),
        lt→ltb (length (header ++ [])) (8 + min (length payload - 0) d.in_chunk_size)
            (omega lengths),
      ))

  -- A message in one chunk of format 1. Parsed at once it is at the stream's clock plus the delta.
  -- Where the header comes first, the parser asks for more bytes, and when the payload is there too
  -- the same chunk is at the clock plus twice the delta.
  pub delta_twice :
      (d : Decoder) (out : List RtmpMessage)
      → (d.cs_states c).partial ≡ []
      → length payload ≤ d.in_chunk_size
      → let st = d.cs_states c in
        let waiting = parse_one_chunk d header out in
        ((parse_one_chunk d (header ++ payload) out).1
          ≡ out ++ (message c ty payload st (stamped delta st.timestamp) ∷ []))
        × (waiting.2 ≡ need_more)
        × ((parse_one_chunk waiting.0 (header ++ payload) waiting.1).1
            ≡ out ++ (message c ty payload st (stamped delta (stamped delta st.timestamp)) ∷ []))
  delta_twice d out empty fits =
      let e = header_only d out empty (omega arith) in
      let d₁ = record d { cs_states = set_cs d.cs_states c (clocked (d.cs_states c)) } in
      let st₁ : d₁.cs_states c ≡ clocked (d.cs_states c) = ground arith in
      (
        whole_chunk d out empty fits,
        rw e,
        rw e (whole_chunk d₁ out (ap (λ (s : CsState). s.partial) st₁) fits ∙ rw st₁),
      )
