-- ===== src/Stream/Interleaved.antt =====
-- A frame from `sendLoop` of src/server/rtsp_server.cpp over the control connection to
-- `tcpReceiveLoop` of src/client/rtsp_client.cpp.
use rtsp_sdk.Common.{
  ℕ, ◌+◌, ◌<◌, ◌^◌, ◌≡◌, refl, sym, ap, ◌∙◌, true, false, ◌⊎◌, inl, inr, some, List, [], ◌∷◌, ◌++◌,
  All, length, concat, ◌==◌, ==_iff, if◌then◌else◌, arith, drop, drop-append, take,
  take-append-drop, append-nil, subst,
}
use rtsp_sdk.Net.Link.{Link}
use rtsp_sdk.Rtp.Frame.{VideoFrame, RtpPacket, h264, convert_to_rtp_timestamp}
use rtsp_sdk.Rtp.Nalu.AnnexB.{annex_b}
use rtsp_sdk.Rtp.Packer.{Packer}
use rtsp_sdk.Rtp.Packer.Packs.{Fits}
use rtsp_sdk.Rtp.Packer.Bounds.{pack_frame_h264-Packs}
use rtsp_sdk.Server.Session.{ClientSession, send_turn, send, done, next_in}
use rtsp_sdk.Server.Session.Interleaved.{IsShort, framed_all}
use rtsp_sdk.Server.Session.Sending.{Outlet, pack_frame_as, send_frame, send_round, round_on}
use rtsp_sdk.Server.Session.Sending.Framed.{on_channel, takes_all, send_frame-framed}
use rtsp_sdk.Client.Receiver.{Receiver}
use rtsp_sdk.Client.Receiver.Packet.{ingest_rtp_packet}
use rtsp_sdk.Client.Receiver.InOrder.{Waiting}
use rtsp_sdk.Client.Interleaved.{Pieces, hand_on, tcp_receive}
use rtsp_sdk.Client.Interleaved.Stream.{take_message, take_messages, tcp_receive-framed_all}
use rtsp_sdk.Stream.Took.{Ready}
use rtsp_sdk.Stream.Delivery.{deliver}
use rtsp_sdk.Stream.Frames.{Sendable, Delivers, pack_frame_h264-Delivers}

-- An empty packet does nothing, whether it is handed on or not.
take-ingest :
    (channel : ℕ) (x : List ℕ) (r : Receiver)
    → take_message channel ingest_rtp_packet (channel, x) r ≡ ingest_rtp_packet r x
unfolding take_message ingest_rtp_packet hand_on
take-ingest channel [] r = refl
take-ingest channel (b ∷ x) r =
    let own : (channel == channel) ≡ true = ground (arith, ==_iff channel channel) in rw own refl

take-deliver :
    (channel : ℕ) (packets : List RtpPacket) (r : Receiver)
    → take_messages channel ingest_rtp_packet (on_channel channel packets) r ≡ deliver r packets
unfolding take_messages deliver
take-deliver channel [] r = refl
take-deliver channel (x ∷ packets) r =
    ap (take_messages channel ingest_rtp_packet (on_channel channel packets))
      (take-ingest channel x.bytes r)
    ∙ take-deliver channel packets (ingest_rtp_packet r x.bytes)

on_channel-IsShort :
    (channel mtu : ℕ) (packets : List RtpPacket)
    → mtu + 12 < 2 ^ 16
    → All (Fits mtu) packets
    → All IsShort (on_channel channel packets)
on_channel-IsShort channel mtu [] k h = tt
on_channel-IsShort channel mtu (x ∷ packets) k h =
    (omega (arith, h.0), on_channel-IsShort channel mtu packets k h.1)

-- The bytes in pieces of these sizes, and the rest of them.
unfoldable pub cut : List ℕ → List ℕ → Pieces
cut [] bytes = bytes ∷ []
cut (n ∷ sizes) bytes = take n bytes ∷ cut sizes (drop n bytes)

concat-cut : (sizes bytes : List ℕ) → concat (cut sizes bytes) ≡ bytes
unfolding cut
concat-cut [] bytes = append-nil bytes
concat-cut (n ∷ sizes) bytes =
    ap (λ x. take n bytes ++ x) (concat-cut sizes (drop n bytes)) ∙ take-append-drop n bytes

module _ (l : Link) (shutdown : l.Conn → l.Conn) where
  -- What was put on the wire between two states of it.
  unfoldable pub added : l.Conn → l.Conn → List ℕ
  added c c' = drop (length (l.wire c)) (l.wire c')

  received :
      (c c' : l.Conn) (channel mtu : ℕ) (packets : List RtpPacket) (r : Receiver) (sizes : List ℕ)
      → mtu + 12 < 2 ^ 16
      → All (Fits mtu) packets
      → l.wire c' ≡ l.wire c ++ framed_all (on_channel channel packets)
      → (after : Pieces) × (tcp_receive channel ingest_rtp_packet (cut sizes (added c c')) r
          ≡ (deliver r packets, after))
        × (concat after ≡ [])
  unfolding added
  received c c' channel mtu packets r sizes k fits w =
      let bytes = framed_all (on_channel channel packets) in
      let same_bytes : added c c' ≡ bytes =
        ap (drop (length (l.wire c))) w ∙ drop-append (l.wire c) bytes (length (l.wire c)) refl in
      let (after, read, others) =
        tcp_receive-framed_all channel ingest_rtp_packet (cut sizes (added c c'))
          (on_channel channel packets) r (concat-cut sizes (added c c') ∙ same_bytes)
          (on_channel-IsShort channel mtu packets k fits) in
      (after, read ∙ ap (λ x. (x, after)) (take-deliver channel packets r), others)

  send_frame-tcp_receive :
      (s : ClientSession) (now seconds : ℕ) (frame : VideoFrame) (out : Outlet l shutdown)
      (p : Packer) (r : Receiver) (u : List ℕ) (us : List (List ℕ)) (sizes : List ℕ)
      → s.rtp_packer ≡ some (h264, p)
      → s.use_tcp_interleaved ≡ true
      → l.is_valid out.conn ≡ true
      → (2 < p.mtu) × (p.mtu + 12 < 2 ^ 16)
      → (p.payload_type < 128) × (p.seq < 2 ^ 16)
      → frame.bytes ≡ annex_b (u ∷ us)
      → All Sendable (u ∷ us)
      → Ready r (convert_to_rtp_timestamp frame.pts p.clock_rate) p.payload_type
      → Waiting r p.seq
      → (d : Delivers p r frame (u ∷ us)) × (s' : ClientSession) × (out' : Outlet l shutdown)
        × (send_frame l shutdown s now seconds frame out ≡ some (s', out'))
        × (((takes_all l shutdown s.interleaved_rtp_channel d.packets out.conn ≡ false)
              × (s'.playing ≡ false))
            ⊎ ((takes_all l shutdown s.interleaved_rtp_channel d.packets out.conn ≡ true)
                × (s' ≡ record s { rtp_packer = some (h264, d.after); last_activity = now })
                × ((after : Pieces) × (tcp_receive s.interleaved_rtp_channel ingest_rtp_packet
                        (cut sizes (added out.conn out'.conn))
                        r
                      ≡ (deliver r d.packets, after))
                    × (concat after ≡ []))))
  unfolding pack_frame_as
  send_frame-tcp_receive s now seconds frame out p r u us sizes e t v m q b ss ready waiting =
      let d =
        pack_frame_h264-Delivers p r frame u us b ss.0 ss.1 (m.0, omega (arith, m.1)) q.0 q.1 ready
          waiting in
      let packs = pack_frame_h264-Packs p frame m.0 (omega (arith, m.1)) in
      let both = sym packs.result ∙ d.result in
      let same : packs.more ≡ d.packets = cc in
      let fits : All (Fits p.mtu) d.packets = subst (All (Fits p.mtu)) same packs.fits in
      let (s', out', round, outcome) =
        send_frame-framed l shutdown s now seconds frame out h264 p d.after d.packets e t v
          d.result in
      (
        d,
        s',
        out',
        round,
        elim outcome [
          | inl stopped ↦ inl stopped
          | inr (all, after, w) ↦ inr (
            all,
            after,
            received out.conn out'.conn s.interleaved_rtp_channel p.mtu d.packets r sizes m.1 fits
                w,
          )
        ],
      )

  -- A session plays over its control connection, which is open, with the packer of H.264 and an MTU
  -- that leaves a packet below 2 ^ 16 bytes, and a frame of units that packets can carry is the first
  -- of its queue; the bytes of the round reach a client whose receiver waits for them, in pieces of
  -- any sizes. The round ends. If the connection does not take all packets whole, the session plays no
  -- more. Otherwise the receiver has taken just the packets of the frame, in order, which brings it the
  -- whole frame, and no byte is left; the session has the frame no more, and the packer after the
  -- packets.
  pub send_round-tcp_receive :
      (s : ClientSession) (now seconds : ℕ) (frame : VideoFrame) (queue : List VideoFrame)
      (out : Outlet l shutdown) (p : Packer) (r : Receiver) (u : List ℕ) (us : List (List ℕ))
      (sizes : List ℕ)
      → s.playing ≡ true
      → s.frame_queue ≡ frame ∷ queue
      → s.rtp_packer ≡ some (h264, p)
      → s.use_tcp_interleaved ≡ true
      → l.is_valid out.conn ≡ true
      → (2 < p.mtu) × (p.mtu + 12 < 2 ^ 16)
      → (p.payload_type < 128) × (p.seq < 2 ^ 16)
      → frame.bytes ≡ annex_b (u ∷ us)
      → All Sendable (u ∷ us)
      → Ready r (convert_to_rtp_timestamp frame.pts p.clock_rate) p.payload_type
      → Waiting r p.seq
      → (d : Delivers p r frame (u ∷ us)) × (s' : ClientSession) × (out' : Outlet l shutdown)
        × (send_round l shutdown s now seconds out ≡ some (s', out'))
        × (((takes_all l shutdown s.interleaved_rtp_channel d.packets out.conn ≡ false)
              × (s'.playing ≡ false))
            ⊎ ((takes_all l shutdown s.interleaved_rtp_channel d.packets out.conn ≡ true)
                × (s' ≡ record s {
                  frame_queue = queue;
                  rtp_packer = some (h264, d.after);
                  last_activity = now;
                })
                × ((after : Pieces) × (tcp_receive s.interleaved_rtp_channel ingest_rtp_packet
                        (cut sizes (added out.conn out'.conn))
                        r
                      ≡ (deliver r d.packets, after))
                    × (concat after ≡ []))))
  unfolding send_round send_turn
  send_round-tcp_receive s now seconds frame queue out p r u us sizes y f e t v m q b ss ready
        waiting =
      let turn : send_turn s ≡ send frame (record s { frame_queue = queue }) =
        ap (λ x. if x then next_in s s.frame_queue else done) y ∙ ap (next_in s) f in
      let (d, s', out', round, outcome) =
        send_frame-tcp_receive (record s { frame_queue = queue }) now seconds frame out p r u us
          sizes e t v m q b ss ready waiting in
      (d, s', out', ap (round_on l shutdown s now seconds out) turn ∙ round, outcome)
