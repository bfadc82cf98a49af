-- ===== src/Rtmp/Chunk/Landing.antt =====
-- One chunk of the encoder of src/rtmp/rtmp_chunk_stream.cpp, through `parseOneChunk`.
use rtsp_sdk.Common.{
  ℕ, ◌+◌, ◌-◌, ◌%◌, ◌^◌, ◌≤◌, ◌<◌, ◌≡◌, refl, sym, ap, ◌∙◌, true, false, List, [], ◌∷◌, ◌++◌,
  length, drop, min, ◌==◌, if◌then◌else◌, arith, le→ltb, take-append, drop-append, drop-drop, subst,
  Bool-cases, inl, inr,
}
use rtsp_sdk.Common.Bytes.{be24, be32, le32, read_be32, read_be32-be32, lengths, IsU32, length-be32}
use rtsp_sdk.Rtmp.Chunk.Message.{RtmpMessage, ext_mark}
use rtsp_sdk.Rtmp.Chunk.Encoder.{basic_header, first_header, ext_ts}
use rtsp_sdk.Rtmp.Chunk.Headers.{
  parse_one_chunk-basic_header, read_fields-message_header, message_header,
}
use rtsp_sdk.Rtmp.Chunk.Decoder.{
  Decoder, CsState, consumed, Step, take_ext_ts, need_ext_ts, update_cs, take_payload,
  parse_one_chunk, set_cs, header_need,
}

-- What the encoder's header fields can carry: a chunk stream of the one-byte form, a payload below
-- 16 MiB, 32-bit ids and timestamps.
pub record IsSendable (msg : RtmpMessage) : Type 0 where
  pub csid_low : 2 ≤ msg.csid
  pub csid_high : msg.csid < 64
  pub short : length msg.payload < 2 ^ 24
  pub stream_id_fits : IsU32 msg.msg_stream_id
  pub timestamp_fits : IsU32 msg.timestamp

-- The state of the stream while `msg` arrives, of which `partial` is here.
abbrev pub in_flight : CsState → RtmpMessage → List ℕ → CsState
in_flight st msg partial = record {
  timestamp = msg.timestamp;
  timestamp_delta = msg.timestamp;
  msg_length = length msg.payload;
  msg_type_id = msg.type_id;
  msg_stream_id = msg.msg_stream_id;
  partial = partial;
  has_last_fmt0_or_1 = true;
  last_ts_was_delta = st.last_ts_was_delta;
}

-- The step of a chunk of `k` bytes after which `whole` is here.
abbrev pub landed : Decoder → CsState → RtmpMessage → List ℕ → ℕ → List RtmpMessage → Step
landed d st msg whole k out =
    if length whole == length msg.payload
    then (
      record d {
        cs_states = set_cs d.cs_states msg.csid (in_flight st msg []);
        messages_in = d.messages_in + 1;
      },
      out ++ (record msg { payload = whole } ∷ []),
      consumed k,
    )
    else (
      record d { cs_states = set_cs d.cs_states msg.csid (in_flight st msg whole) },
      out,
      consumed k,
    )

pub take_payload-landed :
    (d : Decoder) (st : CsState) (msg : RtmpMessage) (partial src : List ℕ) (off : ℕ)
    (bs tail : List ℕ) (out : List RtmpMessage)
    → length partial ≤ length msg.payload
    → length bs ≡ min (length msg.payload - length partial) d.in_chunk_size
    → drop off src ≡ bs ++ tail
    → off + length bs ≤ length src
    → take_payload d msg.csid (in_flight st msg partial) src off out
      ≡ landed d st msg (partial ++ bs) (off + length bs) out
unfolding take_payload
take_payload-landed d st msg partial src off bs tail out le slice e fits = rw (
  le→ltb (length msg.payload) (length partial) le,
  ← slice,
  le→ltb (length src) (off + length bs) fits,
  e,
  take-append bs tail (length bs) refl,
)

module _ (d : Decoder) (msg : RtmpMessage) (good : IsSendable msg) where
  first_header-append :
      (rest : List ℕ)
      → first_header msg ++ rest
        ≡ basic_header 0 msg.csid
          ∷ message_header
              (if ext_ts msg then ext_mark else msg.timestamp)
              (length msg.payload % 2 ^ 32)
              msg.type_id
              msg.msg_stream_id
              ((if ext_ts msg then be32 msg.timestamp else []) ++ rest)
  unfolding first_header be24 le32
  first_header-append rest = refl

  abbrev mark_or_ts : ℕ
  mark_or_ts = if ext_ts msg then ext_mark else msg.timestamp

  abbrev extension : List ℕ
  extension = if ext_ts msg then be32 msg.timestamp else []

  first_fields :
      (rest : List ℕ) (out : List RtmpMessage)
      → parse_one_chunk d (first_header msg ++ rest) out
        ≡ take_ext_ts d 0 msg.csid
            (record {
              ts_or_delta = mark_or_ts;
              msg_len = length msg.payload;
              type_id = msg.type_id;
              stream_id = msg.msg_stream_id;
            })
            (first_header msg ++ rest)
            12
            out
  unfolding header_need
  first_fields rest out =
      let st = d.cs_states msg.csid in
      let len = length msg.payload % 2 ^ 32 in
      let same : len ≡ length msg.payload = omega (arith, good.short) in
      let body = extension ++ rest in
      let p = message_header mark_or_ts len msg.type_id msg.msg_stream_id body in
      let tsf : mark_or_ts < 2 ^ 24 = ground arith in
      let read =
        read_fields-message_header st mark_or_ts len msg.type_id msg.msg_stream_id body tsf
          (omega (arith, good.short)) good.stream_id_fits in
      let enough : 11 ≤ length p = omega lengths in
      rw (first_header-append rest) (
        parse_one_chunk-basic_header d 0 msg.csid p out (omega arith) good.csid_low good.csid_high
          enough
        ∙ ap (λ h. take_ext_ts d 0 msg.csid h (basic_header 0 msg.csid ∷ p) 12 out)
            (read
              ∙ ap
                  (λ n. record {
                    ts_or_delta = mark_or_ts;
                    msg_len = n;
                    type_id = msg.type_id;
                    stream_id = msg.msg_stream_id;
                  })
                  same))

  length-first_header : length (first_header msg) ≡ 12 + length extension
  unfolding first_header
  length-first_header = omega lengths

  drop_header : (rest : List ℕ) → drop 12 (first_header msg ++ rest) ≡ extension ++ rest
  unfolding first_header be24 le32
  drop_header rest = refl

  -- The first chunk of a message brings its front part, extended timestamp or not.
  pub first-landed :
      (bs tail : List ℕ) (out : List RtmpMessage)
      → (d.cs_states msg.csid).partial ≡ []
      → length bs ≡ min (length msg.payload) d.in_chunk_size
      → parse_one_chunk d (first_header msg ++ (bs ++ tail)) out
        ≡ landed d (d.cs_states msg.csid) msg bs (length (first_header msg) + length bs) out
  unfolding take_ext_ts need_ext_ts update_cs
  first-landed bs tail out empty slice =
      let st = d.cs_states msg.csid in
      let src = first_header msg ++ (bs ++ tail) in
      let arrives =
        λ (off : ℕ) (here : drop off src ≡ bs ++ tail) (fits : off + length bs ≤ length src).
          subst
            (λ q.
              take_payload d msg.csid (in_flight st msg q) src off out
              ≡ landed d st msg bs (off + length bs) out)
            (sym empty)
            (take_payload-landed d st msg [] src off bs tail out (omega arith)
              (omega (arith, slice)) here fits) in
      rw (first_fields (bs ++ tail) out) (elim (Bool-cases (ext_ts msg)) [
        | inl ext ↦
            let e : extension ≡ be32 msg.timestamp = rw ext in
            let k : length (first_header msg) ≡ 16 =
              omega (lengths, length-first_header, ap (λ (l : List ℕ). length l) e) in
            let stamp : read_be32 (drop 12 src) ≡ msg.timestamp =
              rw (drop_header (bs ++ tail), e)
                (read_be32-be32 msg.timestamp (bs ++ tail) good.timestamp_fits) in
            let here : drop 16 src ≡ bs ++ tail =
              sym (drop-drop 12 4 src)
              ∙ rw (drop_header (bs ++ tail), e)
                  (drop-append (be32 msg.timestamp) (bs ++ tail) 4
                    (sym (length-be32 msg.timestamp))) in
            rw (k, ext, stamp, le→ltb (length src) 16 (omega (lengths, k)))
              (arrives 16 here (omega (lengths, k)))
        | inr plain ↦
            let e : extension ≡ [] = rw plain in
            let k : length (first_header msg) ≡ 12 =
              omega (lengths, length-first_header, ap (λ (l : List ℕ). length l) e) in
            let here : drop 12 src ≡ bs ++ tail = drop_header (bs ++ tail) ∙ rw e in
            let low : (msg.timestamp == ext_mark) ≡ false = ground arith in
            rw (k, plain, low) (arrives 12 here (omega (lengths, k)))
      ])
