-- ===== src/Client/Interleaved/Stream.antt =====
-- `tcpReceiveLoop` of src/client/rtsp_client.cpp on a stream of framed packets.
use rtsp_sdk.Common.{
  ℕ, zero, suc, ◌<◌, ◌≤◌, ◌^◌, ◌≡◌, refl, ap, false, some, List, [], ◌∷◌, ◌++◌, All, length,
  length-append, concat, ◌==◌, if◌then◌else◌, arith,
}
use rtsp_sdk.Common.Bytes.{be16, read_be16, read_be16-be16}
use rtsp_sdk.Server.Session.Interleaved.{interleaved, Message, framed_all, IsShort}
use rtsp_sdk.Client.Interleaved.{
  Pieces, recv_exact-front, recv_exact-end, hand_on, read_packet, receive_round, tcp_receive_loop,
  tcp_receive,
}

framed_all-long : (ms : List Message) → length ms ≤ length (framed_all ms)
unfolding framed_all interleaved
framed_all-long [] = omega arith
framed_all-long ((c, packet) ∷ ms) =
    omega (arith, framed_all-long ms, length-append (interleaved c packet) (framed_all ms))

module _ {ℓ} {S : Type ℓ} (channel : ℕ) (ingest : S → List ℕ → S) where
  -- What one packet does: an empty one, and one on another channel, nothing.
  unfoldable pub take_message : Message → S → S
  take_message (c, []) s = s
  take_message (c, b ∷ packet) s = if c == channel then ingest s (b ∷ packet) else s

  unfoldable pub take_messages : List Message → S → S
  take_messages [] s = s
  take_messages (m ∷ ms) s = take_messages ms (take_message m s)

  -- A round that meets a frame reads just this frame.
  packet_round :
      (c : ℕ) (packet rest : List ℕ) (pieces : Pieces) (s : S)
      → length packet < 2 ^ 16
      → concat pieces ≡ packet ++ rest
      → (after : Pieces) × (read_packet channel ingest (some (c ∷ be16 (length packet))) pieces s
          ≡ (take_message (c, packet) s, after))
        × (concat after ≡ rest)
  unfolding read_packet take_message be16 hand_on
  packet_round c [] rest pieces s h e =
      let field : read_be16 (be16 0) ≡ 0 = read_be16-be16 0 [] (omega arith) in
      rw field (pieces, refl, e)
  packet_round c (b ∷ packet) rest pieces s h e =
      let n = length (b ∷ packet) in
      let field : read_be16 (be16 n) ≡ n = read_be16-be16 n [] h in
      let some_left : (n == 0) ≡ false = ground arith in
      let (after, read, others) = recv_exact-front pieces (b ∷ packet) rest e in
      rw (field, some_left, read) (after, refl, others)

  tcp_receive_loop-framed_all :
      (fuel : ℕ) (pieces : Pieces) (ms : List Message) (s : S)
      → concat pieces ≡ framed_all ms
      → All IsShort ms
      → length ms < fuel
      → (after : Pieces) × (tcp_receive_loop channel ingest fuel pieces s
          ≡ (take_messages ms s, after))
        × (concat after ≡ [])
  unfolding tcp_receive_loop receive_round framed_all take_messages interleaved be16
  tcp_receive_loop-framed_all zero pieces ms s e h k = absurd (omega arith)
  tcp_receive_loop-framed_all (suc fuel) pieces [] s e h k =
      let nothing = recv_exact-end pieces e in
      rw (tcp_receive_loop, nothing, nothing) ([], refl, refl)
  tcp_receive_loop-framed_all (suc fuel) pieces ((c, packet) ∷ ms) s e h k =
      let rest = packet ++ framed_all ms in
      let hdr = c ∷ be16 (length packet) in
      let (p1, read1, e1) = recv_exact-front pieces (b'$' ∷ []) (hdr ++ rest) e in
      let (p2, read2, e2) = recv_exact-front p1 hdr rest e1 in
      let (p3, read3, e3) = packet_round c packet (framed_all ms) p2 s h.0 e2 in
      rw (tcp_receive_loop, read1, read1, read2, read3)
        (tcp_receive_loop-framed_all fuel p3 ms (take_message (c, packet) s) e3 h.1 (omega arith))

  -- However the bytes of framed packets of less than 2 ^ 16 bytes come, the loop takes the packets one
  -- by one, in order, and nothing is left.
  pub tcp_receive-framed_all :
      (pieces : Pieces) (ms : List Message) (s : S)
      → concat pieces ≡ framed_all ms
      → All IsShort ms
      → (after : Pieces) × (tcp_receive channel ingest pieces s ≡ (take_messages ms s, after))
        × (concat after ≡ [])
  unfolding tcp_receive
  tcp_receive-framed_all pieces ms s e h =
      tcp_receive_loop-framed_all (suc (length (concat pieces))) pieces ms s e h
        (omega (arith, framed_all-long ms, ap length e))
