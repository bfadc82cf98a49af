-- ===== src/Rtmp/Chunk/NextLanding.antt =====
-- A further chunk of a message of the encoder of src/rtmp/rtmp_chunk_stream.cpp, through
-- `parseOneChunk`: where the extended timestamp is read as such, and where it is not.
use rtsp_sdk.Common.{
  ℕ, suc, ◌+◌, ◌-◌, ◌≤◌, ◌<◌, ◌≡◌, refl, sym, ap, ◌∙◌, true, false, List, [], ◌∷◌, ◌++◌, length,
  drop, min, ◌==◌, if◌then◌else◌, arith, le→ltb, drop-append, Bool-cases, inl, inr,
}
use rtsp_sdk.Common.Bytes.{be32, lengths, length-be32}
use rtsp_sdk.Rtmp.Chunk.Message.{RtmpMessage, ext_mark}
use rtsp_sdk.Rtmp.Chunk.Encoder.{basic_header, next_header, ext_ts}
use rtsp_sdk.Rtmp.Chunk.Headers.{parse_one_chunk-basic_header}
use rtsp_sdk.Rtmp.Chunk.Landing.{IsSendable, in_flight, landed, take_payload-landed}
use rtsp_sdk.Rtmp.Chunk.Decoder.{
  Decoder, CsState, read_fields, take_ext_ts, need_ext_ts, update_cs, parse_one_chunk, header_need,
}

module _ (d : Decoder) (msg : RtmpMessage) (good : IsSendable msg) (st : CsState) (b : ℕ)
    (bs₀ : List ℕ) (here : d.cs_states msg.csid ≡ in_flight st msg (b ∷ bs₀)) where
  abbrev extension : List ℕ
  extension = if ext_ts msg then be32 msg.timestamp else []

  -- A header of format 3 brings no field: the payload, or an extended timestamp, comes at once.
  next_fields :
      (p : List ℕ) (out : List RtmpMessage)
      → parse_one_chunk d (basic_header 3 msg.csid ∷ p) out
        ≡ take_ext_ts d 3 msg.csid
            (record {
              ts_or_delta = 0;
              msg_len = length msg.payload;
              type_id = msg.type_id;
              stream_id = msg.msg_stream_id;
            })
            (basic_header 3 msg.csid ∷ p)
            1
            out
  unfolding header_need read_fields
  next_fields p out =
      parse_one_chunk-basic_header d 3 msg.csid p out (omega arith) good.csid_low good.csid_high
        (omega arith)
      ∙ rw here

  -- Where the decoder looks for an extended timestamp exactly if the encoder wrote one, the chunk
  -- brings the next part of the payload.
  pub next-landed :
      (bs tail : List ℕ) (out : List RtmpMessage)
      → msg.timestamp ≤ ext_mark
      → length (b ∷ bs₀) ≤ length msg.payload
      → length bs ≡ min (length msg.payload - length (b ∷ bs₀)) d.in_chunk_size
      → parse_one_chunk d (next_header msg ++ (bs ++ tail)) out
        ≡ landed d st msg ((b ∷ bs₀) ++ bs) (length (next_header msg) + length bs) out
  unfolding take_ext_ts need_ext_ts update_cs next_header
  next-landed bs tail out low le slice =
      let arrives =
        λ (src : List ℕ) (off : ℕ) (at_off : drop off src ≡ bs ++ tail)
            (fits : off + length bs ≤ length src).
          take_payload-landed d st msg (b ∷ bs₀) src off bs tail out le slice at_off fits in
      rw (next_fields (extension ++ (bs ++ tail)) out) (elim (Bool-cases (ext_ts msg)) [
        | inl ext ↦
            let stamped = be32 msg.timestamp ++ (bs ++ tail) in
            let mark : (msg.timestamp == ext_mark) ≡ true = ground arith in
            rw
              (
                here,
                ext,
                mark,
                length-be32 msg.timestamp,
                le→ltb (suc (length stamped)) 5 (omega lengths),
              )
              (arrives (basic_header 3 msg.csid ∷ stamped) 5
                (drop-append (be32 msg.timestamp) (bs ++ tail) 4 (sym (length-be32 msg.timestamp)))
                (omega lengths))
        | inr plain ↦
            let mark : (msg.timestamp == ext_mark) ≡ false = ground arith in
            rw (here, plain, mark)
              (arrives (basic_header 3 msg.csid ∷ (bs ++ tail)) 1 refl (omega lengths))
      ])

  -- Beyond the mark the encoder repeats the extended timestamp in front of every chunk and the
  -- decoder does not look for it: its bytes land in the payload, as many of the four as the decoder
  -- takes for this chunk.
  pub next-landed_beyond :
      (bs tail : List ℕ) (out : List RtmpMessage)
      → ext_mark < msg.timestamp
      → length (b ∷ bs₀) ≤ length msg.payload
      → length bs ≡ min (length msg.payload - length (b ∷ bs₀)) d.in_chunk_size
      → (rest : List ℕ) → be32 msg.timestamp ++ rest ≡ bs ++ tail
      → parse_one_chunk d (next_header msg ++ rest) out
        ≡ landed d st msg ((b ∷ bs₀) ++ bs) (1 + length bs) out
  unfolding take_ext_ts need_ext_ts update_cs next_header
  next-landed_beyond bs tail out beyond le slice rest split =
      let ext : ext_ts msg ≡ true = ground arith in
      let mark : (msg.timestamp == ext_mark) ≡ false = ground arith in
      let src = basic_header 3 msg.csid ∷ (be32 msg.timestamp ++ rest) in
      let size = ap (λ (l : List ℕ). length l) split in
      rw ext (
        next_fields (be32 msg.timestamp ++ rest) out
        ∙ rw (here, mark)
            (take_payload-landed d st msg (b ∷ bs₀) src 1 bs tail out le slice split
              (omega (lengths, size))))
