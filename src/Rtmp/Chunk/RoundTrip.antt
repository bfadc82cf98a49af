-- ===== src/Rtmp/Chunk/RoundTrip.antt =====
-- Messages written by the encoder of src/rtmp/rtmp_chunk_stream.cpp come out of its decoder.
use rtsp_sdk.Common.{
  ℕ, zero, suc, ◌+◌, ◌≤◌, ◌<◌, ◌≡◌, ◌⊎◌, refl, sym, ap, ◌∙◌, subst, true, false, some, List, [],
  ◌∷◌, ◌++◌, length, take, drop, min, ltb, ◌==◌, arith, append_assoc, append-nil, length-drop,
  length-take, Bool-cases, inl, inr, take-append-drop, drop-append, All, ltb→lt, ltb→le, take_all,
}
use rtsp_sdk.Common.Bytes.{lengths}
use rtsp_sdk.Rtmp.Chunk.Message.{RtmpMessage, ext_mark}
use rtsp_sdk.Rtmp.Chunk.Encoder.{first_header}
use rtsp_sdk.Rtmp.Chunk.Frames.{tail_chunks, tail_chunks-nil, message_chunks}
use rtsp_sdk.Rtmp.Chunk.Landing.{IsSendable, in_flight, landed, first-landed}
use rtsp_sdk.Rtmp.Chunk.Delivery.{GoesOn, GoesOn-trans, round, receiving, delivered, tail_delivered}
use rtsp_sdk.Rtmp.Chunk.Decoder.{Decoder, consumed, parse_one_chunk, set_cs, feed_loop, feed, Fed}

module _ (msg : RtmpMessage) (good : IsSendable msg) (d : Decoder)
    (empty : (d.cs_states msg.csid).partial ≡ []) (f : ℕ) (bs after : List ℕ)
    (out : List RtmpMessage) (slice : length bs ≡ min (length msg.payload) d.in_chunk_size)
    (enough : length (first_header msg ++ (bs ++ after)) < f) where
  abbrev before : Decoder
  before = record d { buffer = first_header msg ++ (bs ++ after) }

  abbrev taken : ℕ
  taken = length (first_header msg) + length bs

  lands :
      parse_one_chunk before before.buffer out
      ≡ landed before (d.cs_states msg.csid) msg bs taken out
  lands = first-landed before msg good bs after out empty slice

  left_over : drop taken before.buffer ≡ after
  left_over = rw (← append_assoc) (drop-append (first_header msg ++ bs) after taken (omega lengths))

  some_taken : 0 < taken
  unfolding first_header
  some_taken = omega arith

  first_round_last :
      bs ≡ msg.payload → GoesOn f before out (delivered d msg after) (out ++ (msg ∷ []))
  first_round_last whole =
      let d₁ = record before {
        cs_states = set_cs d.cs_states msg.csid (in_flight (d.cs_states msg.csid) msg []);
        messages_in = d.messages_in + 1;
      } in
      let all : (length bs == length msg.payload) ≡ true =
        ground (arith, ap (λ (l : List ℕ). length l) whole) in
      let step : parse_one_chunk before before.buffer out
          ≡ (d₁, out ++ (msg ∷ []), consumed taken) =
        lands ∙ rw (all, whole) in
      subst (λ r. GoesOn f before out (record d₁ { buffer = r }) (out ++ (msg ∷ []))) left_over
        (round f before d₁ out (out ++ (msg ∷ [])) taken step refl some_taken (omega lengths)
          enough)

  first_round_more :
      length bs < length msg.payload → GoesOn f before out (receiving d msg bs after) out
  first_round_more short =
      let d₁ = record before {
        cs_states = set_cs d.cs_states msg.csid (in_flight (d.cs_states msg.csid) msg bs);
      } in
      let part : (length bs == length msg.payload) ≡ false = ground arith in
      let step : parse_one_chunk before before.buffer out ≡ (d₁, out, consumed taken) =
        lands ∙ rw part in
      subst (λ r. GoesOn f before out (record d₁ { buffer = r }) out) left_over
        (round f before d₁ out out taken step refl some_taken (omega lengths) enough)

-- A message whose extended timestamp the decoder follows: none, the mark itself, or in a message of
-- one chunk.
abbrev pub Follows : ℕ → RtmpMessage → Type 0
Follows n msg = (msg.timestamp ≤ ext_mark) ⊎ (length msg.payload ≤ n)

cons_of_pos : (xs : List ℕ) → 0 < length xs → (b : ℕ) × (bs : List ℕ) × (xs ≡ b ∷ bs)
cons_of_pos [] h = absurd (omega arith)
cons_of_pos (b ∷ bs) h = (b, bs, refl)

message_delivered :
    (msg : RtmpMessage) (d : Decoder) (f : ℕ) (after : List ℕ) (out : List RtmpMessage)
    → IsSendable msg
    → 1 ≤ d.in_chunk_size
    → Follows d.in_chunk_size msg
    → (d.cs_states msg.csid).partial ≡ []
    → length (message_chunks d.in_chunk_size msg ++ after) < f
    → GoesOn f
        (record d { buffer = message_chunks d.in_chunk_size msg ++ after })
        out
        (delivered d msg after)
        (out ++ (msg ∷ []))
unfolding message_chunks
message_delivered msg d f after out good size follows empty enough =
    let n = d.in_chunk_size in
    let k = min n (length msg.payload) in
    let bs = take k msg.payload in
    let rest = drop k msg.payload in
    let more = tail_chunks (length msg.payload + 1) n msg rest in
    let slice : length bs ≡ min (length msg.payload) n = omega (arith, length-take k msg.payload) in
    let fuel : length (first_header msg ++ (bs ++ (more ++ after))) < f =
      rw (append_assoc (first_header msg) (bs ++ more) after, append_assoc bs more after) at
        enough in
    rw (append_assoc (first_header msg) (bs ++ more) after, append_assoc bs more after)
      (elim (Bool-cases (ltb n (length msg.payload))) [
        | inr one ↦
            let short : length msg.payload ≤ k = omega (arith, ltb→le _ _ one) in
            let none_left : more ≡ [] =
              tail_chunks-nil _ n msg rest (omega (arith, length-drop k msg.payload)) in
            rw none_left (
              first_round_last msg good d empty f bs after out slice (rw none_left at fuel)
                (take_all msg.payload k short))
        | inl several ↦
            let long = ltb→lt n (length msg.payload) several in
            let low : msg.timestamp ≤ ext_mark = ground arith in
            let (b, bs₀, split) = cons_of_pos bs (omega (arith, slice)) in
            GoesOn-trans f _ (receiving d msg bs (more ++ after)) _ out out _
              (first_round_more msg good d empty f bs (more ++ after) out slice fuel
                (omega (arith, slice)))
              (λ g ok. rw split (
                tail_delivered msg good d size low after out (length msg.payload + 1) g b bs₀ rest
                  (ap (λ (l : List ℕ). l ++ rest) (sym split) ∙ take-append-drop k msg.payload)
                  (omega (arith, length-drop k msg.payload))
                  (omega (arith, length-drop k msg.payload)) ok))
      ])

-- The chunks of several messages, one message after the other.
abbrev pub all_chunks : ℕ → List RtmpMessage → List ℕ
all_chunks n [] = []
all_chunks n (msg ∷ msgs) = message_chunks n msg ++ all_chunks n msgs

-- No message is in the middle of its arrival.
abbrev pub IsQuiet : Decoder → Type 0
IsQuiet d = (c : ℕ) → (d.cs_states c).partial ≡ []

-- The loop has taken everything in and delivered `msgs`.
abbrev pub Delivers : Decoder → List RtmpMessage → List RtmpMessage → Fed → Type 0
Delivers d out msgs r =
    (d' : Decoder) × (r ≡ some (d', out ++ msgs, true))
    × (d'.buffer ≡ [])
    × (d'.in_chunk_size ≡ d.in_chunk_size)
    × (d'.messages_in ≡ d.messages_in + length msgs)
    × IsQuiet d'

delivered-IsQuiet :
    (d : Decoder) (msg : RtmpMessage) (after : List ℕ) → IsQuiet d → IsQuiet (delivered d msg after)
delivered-IsQuiet d msg after quiet c = ground (arith, quiet c)

feed_loop-all_chunks :
    (msgs : List RtmpMessage) (d : Decoder) (f : ℕ) (out : List RtmpMessage)
    → All IsSendable msgs
    → All (Follows d.in_chunk_size) msgs
    → 1 ≤ d.in_chunk_size
    → IsQuiet d
    → length (all_chunks d.in_chunk_size msgs) < f
    → Delivers d out msgs (feed_loop f (record d { buffer = all_chunks d.in_chunk_size msgs }) out)
feed_loop-all_chunks [] d zero out good follows size quiet enough = absurd (omega arith)
feed_loop-all_chunks [] d (suc f) out good follows size quiet enough = (
  record d { buffer = [] },
  unfold feed_loop parse_one_chunk in rw append-nil,
  refl,
  refl,
  omega arith,
  quiet,
)
feed_loop-all_chunks (msg ∷ msgs) d f out good follows size quiet enough =
    let rest = all_chunks d.in_chunk_size msgs in
    let first = message_delivered msg d f rest out good.0 size follows.0 (quiet msg.csid) enough in
    let (d', ends, buf, same, count, quiet') =
      feed_loop-all_chunks msgs (delivered d msg rest) first.fuel (out ++ (msg ∷ [])) good.1
        follows.1 size (delivered-IsQuiet d msg rest quiet) first.enough in
    (
      d',
      first.same ∙ ends ∙ ap (λ o. some (d', o, true)) (append_assoc out (msg ∷ []) msgs),
      buf,
      same,
      omega (arith, count),
      quiet',
    )

-- A decoder between messages with an empty buffer, with the chunk size of the encoder, is fed the
-- chunks of any sequence of sendable messages of which it can follow the timestamps: it delivers
-- exactly these messages in order, counts them, and is between messages with an empty buffer again.
pub feed-all_chunks :
    (msgs : List RtmpMessage) (d : Decoder) (out : List RtmpMessage)
    → All IsSendable msgs
    → All (Follows d.in_chunk_size) msgs
    → 1 ≤ d.in_chunk_size
    → IsQuiet d
    → d.buffer ≡ []
    → Delivers d out msgs (feed d (all_chunks d.in_chunk_size msgs) out)
unfolding feed
feed-all_chunks msgs d out good follows size quiet empty =
    let d₁ = record d { bytes_in = d.bytes_in + length (all_chunks d.in_chunk_size msgs) } in
    let bytes = all_chunks d.in_chunk_size msgs in
    subst (λ b. Delivers d out msgs (feed_loop (length b + 1) (record d₁ { buffer = b }) out))
      (ap (λ (b : List ℕ). b ++ bytes) (sym empty))
      (feed_loop-all_chunks msgs d₁ (length bytes + 1) out good follows size quiet (omega arith))
