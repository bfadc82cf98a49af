-- ===== src/Rtmp/Chunk/Total.antt =====
-- `feed` of src/rtmp/rtmp_chunk_stream.cpp on any input.
use rtsp_sdk.Common.{
  ℕ, zero, suc, ◌+◌, ◌-◌, ◌≤◌, ◌<◌, ◌≡◌, refl, ap, ◌∙◌, Bool, true, false, some, List, [], ◌∷◌,
  ◌++◌, length, take, drop, min, ltb, ◌==◌, if◌then◌else◌, arith, length-append, length-drop,
  ltb→le, inl, inr, Option-cases,
}
use rtsp_sdk.Common.Bits.{shr, low_bits}
use rtsp_sdk.Common.Bytes.{at}
use rtsp_sdk.Rtmp.Chunk.Message.{RtmpMessage}
use rtsp_sdk.Rtmp.Chunk.Decoder.{
  Decoder, CsState, Fields, Answer, consumed, need_more, protocol_error, Step, Fed, parse_one_chunk,
  take_ext_ts, take_payload, need_ext_ts, header_need, read_basic, proceed, feed_loop, feed,
}

abbrev pub Bounded : ℕ → Answer → Type 0
Bounded n need_more = Unit {0}
Bounded n protocol_error = Unit {0}
Bounded n (consumed k) = (0 < k) × (k ≤ n)

-- A step keeps the buffer and the chunk size, delivers as many messages as it counts, and consumes
-- at least one byte and no more than there are.
pub record IsSound (d : Decoder) (src : List ℕ) (out : List RtmpMessage) (s : Step) : Type 0 where
  pub buffer : s.0.buffer ≡ d.buffer
  pub chunk_size : s.0.in_chunk_size ≡ d.in_chunk_size
  pub counted : length s.1 + d.messages_in ≡ length out + s.0.messages_in
  pub bounded : Bounded (length src) s.2

module _ {d : Decoder} {src : List ℕ} {out : List RtmpMessage} where
  either :
      (b : Bool) {x y : Step}
      → (b ≡ true → IsSound d src out x)
      → (b ≡ false → IsSound d src out y)
      → IsSound d src out (if b then x else y)
  either true on_true on_false = on_true refl
  either false on_true on_false = on_false refl

-- A step that delivers nothing and changes the streams only.
silent :
    (d : Decoder) (src : List ℕ) (out : List RtmpMessage) (states : ℕ → CsState) (a : Answer)
    → Bounded (length src) a
    → IsSound d src out (record d { cs_states = states }, out, a)
silent d src out states a b = record {
  buffer = refl;
  chunk_size = refl;
  counted = refl;
  bounded = b;
}

length-snoc : (out : List RtmpMessage) (m : RtmpMessage) → length (out ++ (m ∷ [])) ≡ length out + 1
length-snoc out m = length-append out (m ∷ [])

take_payload-IsSound :
    (d : Decoder) (csid : ℕ) (st : CsState) (src : List ℕ) (off : ℕ) (out : List RtmpMessage)
    → 0 < off
    → IsSound d src out (take_payload d csid st src off out)
unfolding take_payload
take_payload-IsSound d csid st src off out pos =
    let slice = min (st.msg_length - length st.partial) d.in_chunk_size in
    let whole = st.partial ++ take slice (drop off src) in
    either (ltb st.msg_length (length st.partial)) (λ _. silent d src out _ protocol_error tt)
      λ _.
        either (ltb (length src) (off + slice)) (λ _. silent d src out _ need_more tt)
          λ fits.
            let room = ltb→le (length src) (off + slice) fits in
            either (length whole == st.msg_length)
              (λ _. record {
                buffer = refl;
                chunk_size = refl;
                counted = omega (arith, length-snoc);
                bounded = (omega arith, room);
              })
              (λ _. silent d src out _ (consumed (off + slice)) (omega arith, room))

take_ext_ts-IsSound :
    (d : Decoder) (fmt csid : ℕ) (h : Fields) (src : List ℕ) (off : ℕ) (out : List RtmpMessage)
    → 0 < off
    → IsSound d src out (take_ext_ts d fmt csid h src off out)
unfolding take_ext_ts
take_ext_ts-IsSound d fmt csid h src off out pos =
    let st = d.cs_states csid in
    either (need_ext_ts fmt st h.ts_or_delta)
      (λ _.
        either (ltb (length src) (off + 4)) (λ _. silent d src out _ need_more tt)
          λ _. take_payload-IsSound d csid _ src (off + 4) out (omega arith))
      (λ _. take_payload-IsSound d csid _ src off out pos)

read_basic_pos : (src : List ℕ) (off csid : ℕ) → read_basic src ≡ some (off, csid) → 0 < off
unfolding read_basic
read_basic_pos src off csid e = ground arith

abbrev fmt_of : List ℕ → ℕ
fmt_of src = low_bits (shr (at src 0) 6) 2

-- One step on any bytes, in any state of the decoder.
parse_one_chunk-IsSound :
    (d : Decoder) (src : List ℕ) (out : List RtmpMessage)
    → IsSound d src out (parse_one_chunk d src out)
unfolding parse_one_chunk
parse_one_chunk-IsSound d src out =
    either (ltb (length src) 1) (λ _. silent d src out d.cs_states need_more tt)
      λ _. elim (Option-cases (read_basic src)) [
        | inl e ↦ rw e (silent d src out d.cs_states need_more tt)
        | inr ((off, csid), e) ↦ rw e (
            either (ltb (length src) (off + header_need (fmt_of src)))
              (λ _. silent d src out _ need_more tt)
              (λ _.
                take_ext_ts-IsSound d (fmt_of src) csid _ src (off + header_need (fmt_of src)) out
                  (omega (arith, read_basic_pos src off csid e))))
      ]

-- The loop ends, and what it has delivered is counted.
pub record Ends (d : Decoder) (out : List RtmpMessage) (r : Fed) : Type 0 where
  pub decoder : Decoder
  pub messages : List RtmpMessage
  pub verdict : Bool
  pub ends : r ≡ some (decoder, messages, verdict)
  pub counted : length messages + d.messages_in ≡ length out + decoder.messages_in
  pub chunk_size : decoder.in_chunk_size ≡ d.in_chunk_size
  pub shorter : length decoder.buffer ≤ length d.buffer

proceed-Ends :
    (f : ℕ) (d : Decoder) (out : List RtmpMessage) (s : Step)
    → IsSound d d.buffer out s
    → ((d' : Decoder) (out' : List RtmpMessage)
        → length d'.buffer < length d.buffer
        → Ends d' out' (feed_loop f d' out'))
    → Ends d out (proceed (feed_loop f) s)
unfolding proceed
proceed-Ends f d out (d', out', protocol_error) s again = record {
  decoder = d';
  messages = out';
  verdict = false;
  ends = refl;
  counted = s.counted;
  chunk_size = s.chunk_size;
  shorter = omega (arith, ap (λ (l : List ℕ). length l) s.buffer);
}
proceed-Ends f d out (d', out', need_more) s again = record {
  decoder = d';
  messages = out';
  verdict = true;
  ends = refl;
  counted = s.counted;
  chunk_size = s.chunk_size;
  shorter = omega (arith, ap (λ (l : List ℕ). length l) s.buffer);
}
proceed-Ends f d out (d', out', consumed k) s again =
    let size = ap (λ (l : List ℕ). length l) s.buffer in
    let next =
      again (record d' { buffer = drop k d'.buffer }) out'
        (omega (arith, length-drop k d'.buffer, size, s.bounded)) in
    record {
      decoder = next.decoder;
      messages = next.messages;
      verdict = next.verdict;
      ends = next.ends;
      counted = omega (arith, next.counted, s.counted);
      chunk_size = next.chunk_size ∙ s.chunk_size;
      shorter = omega (arith, next.shorter, length-drop k d'.buffer, size);
    }

feed_loop-Ends :
    (f : ℕ) (d : Decoder) (out : List RtmpMessage)
    → length d.buffer < f
    → Ends d out (feed_loop f d out)
unfolding feed_loop
feed_loop-Ends zero d out h = absurd (omega arith)
feed_loop-Ends (suc f) d out h =
    proceed-Ends f d out (parse_one_chunk d d.buffer out) (parse_one_chunk-IsSound d d.buffer out)
      (λ d' out' lt. feed_loop-Ends f d' out' (omega arith))

-- In any state of the decoder and on any bytes `feed` ends within its fuel, whatever its verdict.
-- It delivers as many messages as it adds to `messages_in`, keeps the chunk size, and is left with
-- no more bytes in the buffer than it had with the new ones.
pub feed-Ends :
    (d : Decoder) (src : List ℕ) (out : List RtmpMessage)
    → Ends
        (record d { bytes_in = d.bytes_in + length src; buffer = d.buffer ++ src })
        out
        (feed d src out)
unfolding feed
feed-Ends d src out = feed_loop-Ends _ _ out (omega arith)
