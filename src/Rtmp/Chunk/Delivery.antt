-- ===== src/Rtmp/Chunk/Delivery.antt =====
-- What the encoder of src/rtmp/rtmp_chunk_stream.cpp writes, `feed` of its decoder delivers.
use mathlib.Core.Path.{fun_ext, ap₂}
use rtsp_sdk.Common.{
  ℕ, zero, suc, ◌+◌, ◌-◌, ◌≤◌, ◌<◌, ◌≡◌, refl, sym, ap, ◌∙◌, subst, true, false, List, [], ◌∷◌,
  ◌++◌, length, take, drop, min, ltb, ◌==◌, arith, append_assoc, append-nil, length-drop,
  length-take, Bool-cases, inl, inr, take-append-drop, drop-append, ltb→lt, ltb→le, nil_of_length,
}
use rtsp_sdk.Common.Bytes.{lengths, length-bytes}
use rtsp_sdk.Rtmp.Chunk.Message.{RtmpMessage, ext_mark}
use rtsp_sdk.Rtmp.Chunk.Encoder.{next_header}
use rtsp_sdk.Rtmp.Chunk.Frames.{tail_chunks-nil, tail_chunks}
use rtsp_sdk.Rtmp.Chunk.Landing.{IsSendable, in_flight, landed}
use rtsp_sdk.Rtmp.Chunk.NextLanding.{next-landed}
use rtsp_sdk.Rtmp.Chunk.Decoder.{Decoder, CsState, consumed, parse_one_chunk, set_cs, feed_loop}

-- The decoder is in the middle of its loop: from here it goes on as from there, and the fuel there
-- is still above the length of the buffer.
pub record GoesOn (f : ℕ) (d : Decoder) (out : List RtmpMessage) (d' : Decoder)
    (out' : List RtmpMessage) : Type 0 where
  pub fuel : ℕ
  pub same : feed_loop f d out ≡ feed_loop fuel d' out'
  pub enough : length d'.buffer < fuel

-- One round that consumes `k` bytes.
pub round :
    (f : ℕ) (d d₁ : Decoder) (out out₁ : List RtmpMessage) (k : ℕ)
    → parse_one_chunk d d.buffer out ≡ (d₁, out₁, consumed k)
    → d₁.buffer ≡ d.buffer
    → 0 < k
    → k ≤ length d.buffer
    → length d.buffer < f
    → GoesOn f d out (record d₁ { buffer = drop k d₁.buffer }) out₁
unfolding feed_loop
round zero d d₁ out out₁ k e same pos le enough = absurd (omega arith)
round (suc f) d d₁ out out₁ k e same pos le enough = record {
  fuel = f;
  same = rw e;
  enough = omega (arith, length-drop k d₁.buffer, ap (λ (l : List ℕ). length l) same);
}

pub GoesOn-trans :
    (f : ℕ) (d d₁ d₂ : Decoder) (out out₁ out₂ : List RtmpMessage)
    → GoesOn f d out d₁ out₁
    → ((g : ℕ) → length d₁.buffer < g → GoesOn g d₁ out₁ d₂ out₂)
    → GoesOn f d out d₂ out₂
GoesOn-trans f d d₁ d₂ out out₁ out₂ a next =
    let b = next a.fuel a.enough in
    record { fuel = b.fuel; same = a.same ∙ b.same; enough = b.enough }

set_cs-set_cs :
    (states : ℕ → CsState) (c : ℕ) (x y : CsState)
    → set_cs (set_cs states c x) c y ≡ set_cs states c y
set_cs-set_cs states c x y = fun_ext (λ o. ground arith)

set_cs_self : (states : ℕ → CsState) (c : ℕ) (x : CsState) → set_cs states c x c ≡ x
set_cs_self states c x = ground arith

-- The decoder with `partial` of `msg` here and `after` to be read, and after the delivery of `msg`.
abbrev pub receiving : Decoder → RtmpMessage → List ℕ → List ℕ → Decoder
receiving d msg partial after = record d {
  cs_states = set_cs d.cs_states msg.csid (in_flight (d.cs_states msg.csid) msg partial);
  buffer = after;
}

abbrev pub delivered : Decoder → RtmpMessage → List ℕ → Decoder
delivered d msg after = record d {
  cs_states = set_cs d.cs_states msg.csid (in_flight (d.cs_states msg.csid) msg []);
  buffer = after;
  messages_in = d.messages_in + 1;
}

-- The round of a further chunk, when it completes the message and when it does not.
module _ (msg : RtmpMessage) (good : IsSendable msg) (d₀ : Decoder) (low : msg.timestamp ≤ ext_mark)
    (f b : ℕ) (bs₀ bs after : List ℕ) (out : List RtmpMessage)
    (le : length (b ∷ bs₀) ≤ length msg.payload)
    (slice : length bs ≡ min (length msg.payload - length (b ∷ bs₀)) d₀.in_chunk_size)
    (enough : length (next_header msg ++ (bs ++ after)) < f) where
  abbrev before : Decoder
  before = receiving d₀ msg (b ∷ bs₀) (next_header msg ++ (bs ++ after))

  abbrev taken : ℕ
  taken = length (next_header msg) + length bs

  lands :
      parse_one_chunk before before.buffer out
      ≡ landed before (d₀.cs_states msg.csid) msg ((b ∷ bs₀) ++ bs) taken out
  lands =
      next-landed before msg good (d₀.cs_states msg.csid) b bs₀
        (set_cs_self d₀.cs_states msg.csid _) bs after out low le slice

  left_over : drop taken before.buffer ≡ after
  left_over = rw (← append_assoc) (drop-append (next_header msg ++ bs) after taken (omega lengths))

  some_taken : 0 < taken
  unfolding next_header
  some_taken = omega arith

  tail_round_last :
      (b ∷ bs₀) ++ bs ≡ msg.payload
      → GoesOn f before out (delivered d₀ msg after) (out ++ (msg ∷ []))
  tail_round_last whole =
      let y = in_flight (d₀.cs_states msg.csid) msg [] in
      let d₁ = record before {
        cs_states = set_cs before.cs_states msg.csid y;
        messages_in = d₀.messages_in + 1;
      } in
      let all : (length ((b ∷ bs₀) ++ bs) == length msg.payload) ≡ true =
        ground (arith, ap (λ (l : List ℕ). length l) whole) in
      let step : parse_one_chunk before before.buffer out
          ≡ (d₁, out ++ (msg ∷ []), consumed taken) =
        lands ∙ rw (all, whole) in
      subst (λ d. GoesOn f before out d (out ++ (msg ∷ [])))
        (ap₂ (λ s r. record d₁ { cs_states = s; buffer = r })
          (set_cs-set_cs d₀.cs_states msg.csid _ y) left_over)
        (round f before d₁ out (out ++ (msg ∷ [])) taken step refl some_taken (omega lengths)
          enough)

  tail_round_more :
      length ((b ∷ bs₀) ++ bs) < length msg.payload
      → GoesOn f before out (receiving d₀ msg ((b ∷ bs₀) ++ bs) after) out
  tail_round_more short =
      let y = in_flight (d₀.cs_states msg.csid) msg ((b ∷ bs₀) ++ bs) in
      let d₁ = record before { cs_states = set_cs before.cs_states msg.csid y } in
      let part : (length ((b ∷ bs₀) ++ bs) == length msg.payload) ≡ false = ground arith in
      let step : parse_one_chunk before before.buffer out ≡ (d₁, out, consumed taken) =
        lands ∙ rw part in
      subst (λ d. GoesOn f before out d out)
        (ap₂ (λ s r. record d₁ { cs_states = s; buffer = r })
          (set_cs-set_cs d₀.cs_states msg.csid _ y) left_over)
        (round f before d₁ out out taken step refl some_taken (omega lengths) enough)

module _ (msg : RtmpMessage) (good : IsSendable msg) (d₀ : Decoder) (size : 1 ≤ d₀.in_chunk_size)
    (low : msg.timestamp ≤ ext_mark) (after : List ℕ) (out : List RtmpMessage) where
  -- The further chunks of a message deliver it.
  pub tail_delivered :
      (g f b : ℕ) (bs₀ rest : List ℕ)
      → (b ∷ bs₀) ++ rest ≡ msg.payload
      → 0 < length rest
      → length rest < g
      → length (tail_chunks g d₀.in_chunk_size msg rest ++ after) < f
      → GoesOn f
          (receiving d₀ msg (b ∷ bs₀) (tail_chunks g d₀.in_chunk_size msg rest ++ after))
          out
          (delivered d₀ msg after)
          (out ++ (msg ∷ []))
  unfolding tail_chunks
  tail_delivered zero f b bs₀ rest whole pos lt enough = absurd (omega arith)
  tail_delivered (suc g) f b bs₀ rest whole pos lt enough =
      let n = d₀.in_chunk_size in
      let k = min n (length rest) in
      let bs = take k rest in
      let rest' = drop k rest in
      let more = tail_chunks g n msg rest' in
      let busy : (length rest == 0) ≡ false = ground arith in
      let total : length msg.payload ≡ suc (length bs₀) + length rest =
        sym (ap (λ (l : List ℕ). length l) whole) ∙ length-bytes (b ∷ bs₀) rest in
      let slice : length bs ≡ min (length msg.payload - length (b ∷ bs₀)) n =
        omega (lengths, total, length-take k rest) in
      let le : length (b ∷ bs₀) ≤ length msg.payload = omega (lengths, total) in
      let joined : ((b ∷ bs₀) ++ bs) ++ rest' ≡ msg.payload =
        append_assoc (b ∷ bs₀) bs rest' ∙ ap (◌++◌ (b ∷ bs₀)) (take-append-drop k rest) ∙ whole in
      let fuel : length (next_header msg ++ (bs ++ (more ++ after))) < f =
        rw (busy, append_assoc (next_header msg) (bs ++ more) after, append_assoc bs more after) at
          enough in
      let parts : length msg.payload ≡ length ((b ∷ bs₀) ++ bs) + length rest' =
        sym (ap (λ (l : List ℕ). length l) joined) ∙ length-bytes ((b ∷ bs₀) ++ bs) rest' in
      rw (busy, append_assoc (next_header msg) (bs ++ more) after, append_assoc bs more after)
        (elim (Bool-cases (ltb 0 (length rest'))) [
          | inl more_to_come ↦
              GoesOn-trans f _ (receiving d₀ msg ((b ∷ bs₀) ++ bs) (more ++ after)) _ out out _
                (tail_round_more msg good d₀ low f b bs₀ bs (more ++ after) out le slice fuel
                  (omega (arith, parts, ltb→lt _ _ more_to_come)))
                (λ fuel' ok.
                  tail_delivered g fuel' b (bs₀ ++ bs) rest' joined (ltb→lt _ _ more_to_come)
                    (omega (arith, length-drop k rest)) ok)
          | inr last ↦
              let empty : length rest' ≡ 0 = omega (arith, ltb→le _ _ last) in
              let all : (b ∷ bs₀) ++ bs ≡ msg.payload =
                sym (append-nil ((b ∷ bs₀) ++ bs))
                ∙ ap (λ (r : List ℕ). ((b ∷ bs₀) ++ bs) ++ r) (sym (nil_of_length rest' empty))
                ∙ joined in
              let none_left : more ≡ [] = tail_chunks-nil g n msg rest' empty in
              rw none_left (
                tail_round_last msg good d₀ low f b bs₀ bs after out le slice (rw none_left at fuel)
                  all)
        ])
