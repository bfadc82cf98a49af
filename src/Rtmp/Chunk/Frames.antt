-- ===== src/Rtmp/Chunk/Frames.antt =====
-- The bytes of a whole message in plain terms, and that `writeMessage` of
-- src/rtmp/rtmp_chunk_stream.cpp puts exactly them on the wire.
use rtsp_sdk.Common.{
  ℕ, zero, suc, ◌+◌, ◌≤◌, ◌<◌, ◌≡◌, ◌⊎◌, refl, sym, ap, ◌∙◌, Bool, true, false, ◌||◌, not, Option,
  some, List, [], ◌++◌, length, take, drop, min, ltb, ◌==◌, if◌then◌else◌, arith, append_assoc,
  append-nil, length-drop, Bool-cases, inl, inr,
}
use rtsp_sdk.Common.Bytes.{lengths}
use rtsp_sdk.Net.Link.{Link}
use rtsp_sdk.Rtmp.Chunk.Message.{RtmpMessage}
use rtsp_sdk.Rtmp.Chunk.Encoder.{
  Encoder, first_header, next_header, count_chunk, write_rest, write_message,
}

-- The further chunks of size `n` at most, over what is left of the payload.
unfoldable pub tail_chunks : ℕ → ℕ → RtmpMessage → List ℕ → List ℕ
tail_chunks zero n msg rest = []
tail_chunks (suc f) n msg rest =
    let k = min n (length rest) in
    let more = tail_chunks f n msg (drop k rest) in
    if length rest == 0 then [] else next_header msg ++ (take k rest ++ more)

-- An empty rest needs no chunk.
pub tail_chunks-nil :
    (f n : ℕ) (msg : RtmpMessage) (rest : List ℕ) → length rest ≡ 0 → tail_chunks f n msg rest ≡ []
unfolding tail_chunks
tail_chunks-nil zero n msg rest e = refl
tail_chunks-nil (suc f) n msg rest e = rw e

-- All chunks of a message.
unfoldable pub message_chunks : ℕ → RtmpMessage → List ℕ
message_chunks n msg =
    let k = min n (length msg.payload) in
    first_header msg
    ++ (take k msg.payload ++ tail_chunks (length msg.payload + 1) n msg (drop k msg.payload))

module _ (l : Link) where
  -- The call ends. It reports a failure, or success, and then `bytes` were added to the wire and
  -- counted; the chunk size stays.
  pub record Writes (e : Encoder) (s : l.Conn) (bytes : List ℕ)
      (r : Option (Encoder × l.Conn × Bool)) : Type 0 where
    pub encoder : Encoder
    pub conn : l.Conn
    pub success : Bool
    pub ends : r ≡ some (encoder, conn, success)
    pub outcome :
        (success ≡ false)
        ⊎ ((success ≡ true)
            × (l.wire conn ≡ l.wire s ++ bytes)
            × (encoder.bytes_out ≡ e.bytes_out + length bytes))
    pub chunk_size : encoder.out_chunk_size ≡ e.out_chunk_size

  -- Nothing is left to write.
  finished : (e : Encoder) (s : l.Conn) → Writes e s [] (some (e, s, true))
  finished e s = record {
    encoder = e;
    conn = s;
    success = true;
    ends = refl;
    outcome = inr (refl, sym (append-nil (l.wire s)), omega arith);
    chunk_size = refl;
  }

  -- The call gives up.
  given_up : (e : Encoder) (s s' : l.Conn) (bytes : List ℕ) → Writes e s bytes (some (e, s', false))
  given_up e s s' bytes = record {
    encoder = e;
    conn = s';
    success = false;
    ends = refl;
    outcome = inl refl;
    chunk_size = refl;
  }

  -- A chunk has been sent, and the rest of the call goes on from there.
  after_send :
      (e : Encoder) (s : l.Conn) (header slice bytes : List ℕ) (timeout : ℕ)
      (r : Option (Encoder × l.Conn × Bool))
      → (l.send_all s (header ++ slice) timeout).1 ≡ true
      → Writes (count_chunk e (header ++ slice)) (l.send_all s (header ++ slice) timeout).0 bytes r
      → Writes e s (header ++ (slice ++ bytes)) r
  unfolding count_chunk
  after_send e s header slice bytes timeout r sent w = record {
    encoder = w.encoder;
    conn = w.conn;
    success = w.success;
    ends = w.ends;
    outcome = elim w.outcome [
      | inl failed ↦ inl failed
      | inr (success, on_wire, counted) ↦ inr (
        success,
        on_wire
            ∙ ap (λ out. out ++ bytes) (l.all_sent s (header ++ slice) timeout sent)
            ∙ append_assoc (l.wire s) (header ++ slice) bytes
            ∙ ap (◌++◌ (l.wire s)) (append_assoc header slice bytes),
        omega (lengths, counted),
      )
    ];
    chunk_size = w.chunk_size;
  }

  write_rest-Writes :
      (f : ℕ) (e : Encoder) (s : l.Conn) (msg : RtmpMessage) (rest : List ℕ) (timeout : ℕ)
      → 1 ≤ e.out_chunk_size
      → length rest < f
      → Writes e s (tail_chunks f e.out_chunk_size msg rest) (write_rest l f e s msg rest timeout)
  unfolding write_rest tail_chunks count_chunk
  write_rest-Writes zero e s msg rest timeout size enough = absurd (omega arith)
  write_rest-Writes (suc f) e s msg rest timeout size enough =
      let k = min e.out_chunk_size (length rest) in
      let slice = take k rest in
      let sending = l.send_all s (next_header msg ++ slice) timeout in
      elim (Bool-cases (length rest == 0)) [
        | inl done ↦ rw done (finished e s)
        | inr more ↦ elim (Bool-cases sending.1) [
          | inr refused ↦ rw (more, refused) (given_up e s sending.0 _)
          | inl sent ↦
              let e' = count_chunk e (next_header msg ++ slice) in
              rw (more, sent)
                (after_send e s (next_header msg) slice _ timeout _ sent (
                  write_rest-Writes f e' sending.0 msg (drop k rest) timeout size
                    (ground (arith, length-drop k rest))))
        ]
      ]

  -- With a chunk size of one at least, `write_message` ends within its fuel on every message. If it
  -- reports success, exactly the chunks of the message were added to the wire and counted in
  -- `bytes_out`; the chunk size stays as it was in any case.
  pub write_message-Writes :
      (e : Encoder) (s : l.Conn) (msg : RtmpMessage) (timeout : ℕ)
      → 1 ≤ e.out_chunk_size
      → Writes e s (message_chunks e.out_chunk_size msg) (write_message l e s msg timeout)
  unfolding write_message message_chunks count_chunk
  write_message-Writes e s msg timeout size =
      let k = min e.out_chunk_size (length msg.payload) in
      let slice = take k msg.payload in
      let sending = l.send_all s (first_header msg ++ slice) timeout in
      elim (Bool-cases (not (l.is_valid s))) [
        | inl closed ↦ rw closed (given_up e s s _)
        | inr open_ ↦ elim (Bool-cases (ltb msg.csid 2 || ltb 63 msg.csid)) [
          | inl outside ↦ rw (open_, outside) (given_up e s s _)
          | inr inside ↦ elim (Bool-cases sending.1) [
            | inr refused ↦ rw (open_, inside, refused) (given_up e s sending.0 _)
            | inl sent ↦
                let e' = count_chunk e (first_header msg ++ slice) in
                rw (open_, inside, sent)
                  (after_send e s (first_header msg) slice _ timeout _ sent (
                    write_rest-Writes (length msg.payload + 1) e' sending.0 msg (drop k msg.payload)
                      timeout size (omega (arith, length-drop k msg.payload))))
          ]
        ]
      ]
