-- ===== src/Rtmp/Chunk/Decoder.antt =====
-- `ChunkStreamDecoder` of src/rtmp/rtmp_chunk_stream.cpp.
use rtsp_sdk.Common.{
  ℕ, zero, suc, ◌+◌, ◌-◌, Bool, true, false, ◌&&◌, not, Option, none, some, List, [], ◌∷◌, ◌++◌,
  length, take, drop, min, ltb, ◌==◌, if◌then◌else◌,
}
use rtsp_sdk.Common.Bits.{shl, shr, low_bits}
use rtsp_sdk.Common.Bytes.{at, read_be24, read_be32, read_le32}
use rtsp_sdk.Rtmp.Chunk.Message.{RtmpMessage, ext_mark}

pub record CsState : Type 0 where
  pub timestamp : ℕ
  pub timestamp_delta : ℕ
  pub msg_length : ℕ
  pub msg_type_id : ℕ
  pub msg_stream_id : ℕ
  pub partial : List ℕ
  pub has_last_fmt0_or_1 : Bool
  pub last_ts_was_delta : Bool

abbrev pub new_cs : CsState
new_cs = record {
  timestamp = 0;
  timestamp_delta = 0;
  msg_length = 0;
  msg_type_id = 0;
  msg_stream_id = 0;
  partial = [];
  has_last_fmt0_or_1 = false;
  last_ts_was_delta = false;
}

-- `cs_states_` is a function: a stream that is not in the map reads as `new_cs`, which is what
-- `operator[]` puts there.
pub record Decoder : Type 0 where
  pub in_chunk_size : ℕ
  pub cs_states : ℕ → CsState
  pub buffer : List ℕ
  pub bytes_in : ℕ
  pub messages_in : ℕ

abbrev pub new_decoder : Decoder
new_decoder = record {
  in_chunk_size = 128;
  cs_states = λ csid. new_cs;
  buffer = [];
  bytes_in = 0;
  messages_in = 0;
}

abbrev pub set_cs : (ℕ → CsState) → ℕ → CsState → ℕ → CsState
set_cs states csid st other = if other == csid then st else states other

unfoldable pub set_in_chunk_size : Decoder → ℕ → Decoder
set_in_chunk_size d size = record d { in_chunk_size = if ltb size 1 then 1 else size }

-- What `parseOneChunk` answers: 0, -1, or the number of bytes consumed.
pub data Answer : Type 0 where
  need_more protocol_error : Answer
  consumed : ℕ → Answer

-- The basic header: `off` after it and the csid, or `none` where bytes are missing.
unfoldable pub read_basic : List ℕ → Option (ℕ × ℕ)
read_basic src =
    let csid = low_bits (at src 0) 6 in
    if csid == 0
    then (if ltb (length src) 2 then none else some (2, at src 1 + 64))
    else if csid == 1
    then (if ltb (length src) 3 then none else some (3, at src 1 + shl (at src 2) 8 + 64))
    else some (1, csid)

unfoldable pub header_need : ℕ → ℕ
header_need fmt = if fmt == 0 then 11 else if fmt == 1 then 7 else if fmt == 2 then 3 else 0

-- The fields of the message header: those that the format leaves out come from the state.
pub record Fields : Type 0 where
  pub ts_or_delta : ℕ
  pub msg_len : ℕ
  pub type_id : ℕ
  pub stream_id : ℕ

-- `p` is `data + off`.
unfoldable pub read_fields : ℕ → CsState → List ℕ → Fields
read_fields fmt st p =
    if fmt == 0
    then record {
      ts_or_delta = read_be24 p;
      msg_len = read_be24 (drop 3 p);
      type_id = at p 6;
      stream_id = read_le32 (drop 7 p);
    }
    else if fmt == 1
    then record {
      ts_or_delta = read_be24 p;
      msg_len = read_be24 (drop 3 p);
      type_id = at p 6;
      stream_id = st.msg_stream_id;
    }
    else record {
      ts_or_delta = if fmt == 2 then read_be24 p else 0;
      msg_len = st.msg_length;
      type_id = st.msg_type_id;
      stream_id = st.msg_stream_id;
    }

unfoldable pub need_ext_ts : ℕ → CsState → ℕ → Bool
need_ext_ts fmt st ts_or_delta =
    if not (fmt == 3)
    then ts_or_delta == ext_mark
    else st.has_last_fmt0_or_1 && (st.timestamp_delta == ext_mark)

unfoldable pub is_empty : List ℕ → Bool
is_empty [] = true
is_empty (b ∷ bs) = false

-- The state of the stream after the header, before the payload is looked at.
unfoldable pub update_cs : ℕ → CsState → Fields → CsState
unfolding is_empty
update_cs fmt st h = record st {
  timestamp =
      if fmt == 0
      then h.ts_or_delta
      else if fmt == 3
      then (if is_empty st.partial
          then low_bits (st.timestamp + st.timestamp_delta) 32
          else st.timestamp)
      else low_bits (st.timestamp + h.ts_or_delta) 32;
  timestamp_delta = if fmt == 3 then st.timestamp_delta else h.ts_or_delta;
  msg_length = h.msg_len;
  msg_type_id = h.type_id;
  msg_stream_id = h.stream_id;
  has_last_fmt0_or_1 = if fmt == 3 then st.has_last_fmt0_or_1 else true;
}

abbrev pub Step : Type 0
Step = Decoder × List RtmpMessage × Answer

-- The payload of the chunk, at `off`: `st` is the updated state, which is already in the map.
unfoldable pub take_payload : Decoder → ℕ → CsState → List ℕ → ℕ → List RtmpMessage → Step
take_payload d csid st src off out =
    let already = length st.partial in
    let d' = record d { cs_states = set_cs d.cs_states csid st } in
    if ltb st.msg_length already
    then (d', out, protocol_error)
    else let slice = min (st.msg_length - already) d.in_chunk_size in
      if ltb (length src) (off + slice)
      then (d', out, need_more)
      else let whole = st.partial ++ take slice (drop off src) in
        if length whole == st.msg_length
        then (
          record d {
            cs_states = set_cs d.cs_states csid (record st { partial = [] });
            messages_in = d.messages_in + 1;
          },
          out
              ++ (record {
                csid = csid;
                type_id = st.msg_type_id;
                msg_stream_id = st.msg_stream_id;
                timestamp = st.timestamp;
                payload = whole;
              }
                  ∷ []),
          consumed (off + slice),
        )
        else (
          record d { cs_states = set_cs d.cs_states csid (record st { partial = whole }) },
          out,
          consumed (off + slice),
        )

-- The extended timestamp at `off`, if there is one, then the payload.
unfoldable pub take_ext_ts : Decoder → ℕ → ℕ → Fields → List ℕ → ℕ → List RtmpMessage → Step
take_ext_ts d fmt csid h src off out =
    let st = d.cs_states csid in
    if need_ext_ts fmt st h.ts_or_delta
    then (if ltb (length src) (off + 4)
        then (record d { cs_states = set_cs d.cs_states csid st }, out, need_more)
        else take_payload d csid
            (update_cs fmt st (record h { ts_or_delta = read_be32 (drop off src) })) src (off + 4)
            out)
    else take_payload d csid (update_cs fmt st h) src off out

-- `parseOneChunk`.
unfoldable pub parse_one_chunk : Decoder → List ℕ → List RtmpMessage → Step
parse_one_chunk d src out =
    if ltb (length src) 1
    then (d, out, need_more)
    else let fmt = low_bits (shr (at src 0) 6) 2 in
      elim (read_basic src) [
        | none ↦ (d, out, need_more)
        | some (off, csid) ↦
            let st = d.cs_states csid in
            if ltb (length src) (off + header_need fmt)
            then (record d { cs_states = set_cs d.cs_states csid st }, out, need_more)
            else take_ext_ts d fmt csid (read_fields fmt st (drop off src)) src
                (off + header_need fmt) out
      ]

abbrev pub Fed : Type 0
Fed = Option (Decoder × List RtmpMessage × Bool)

-- What the loop of `feed` does with an answer; `again` is the next round.
unfoldable pub proceed : (Decoder → List RtmpMessage → Fed) → Step → Fed
proceed again (d, out, protocol_error) = some (d, out, false)
proceed again (d, out, need_more) = some (d, out, true)
proceed again (d, out, consumed n) = again (record d { buffer = drop n d.buffer }) out

-- The loop of `feed`; `none` is no result of the code: the fuel ran out.
unfoldable pub feed_loop : ℕ → Decoder → List RtmpMessage → Fed
unfolding proceed
feed_loop zero d out = none
feed_loop (suc f) d out = proceed (feed_loop f) (parse_one_chunk d d.buffer out)

-- `feed`: each round takes a byte at least, so the length of the buffer and one more is enough.
unfoldable pub feed : Decoder → List ℕ → List RtmpMessage → Fed
feed d src out =
    let d' = record d { bytes_in = d.bytes_in + length src; buffer = d.buffer ++ src } in
    feed_loop (length d'.buffer + 1) d' out
