-- ===== src/Server/Session/Sending/Framed.antt =====
-- What a round of `sendLoop` of src/server/rtsp_server.cpp puts on the control connection.
use rtsp_sdk.Common.{
  Bool, ◌&&◌, ℕ, ◌≡◌, refl, sym, ap, ◌∙◌, true, false, ◌||◌, inl, inr, ◌⊎◌, Bool-cases, some, List,
  [], ◌∷◌, ◌++◌, map, append-nil, append_assoc, if◌then◌else◌,
}
use rtsp_sdk.Net.Link.{Link}
use rtsp_sdk.Rtp.Frame.{CodecType, VideoFrame, RtpPacket}
use rtsp_sdk.Rtp.Packer.{Packer}
use rtsp_sdk.Server.Session.{ClientSession}
use rtsp_sdk.Server.Session.Interleaved.{interleaved, Message, framed_all}
use rtsp_sdk.Server.Session.Sending.{
  Outlet, pack_frame_as, send_interleaved, send_packet, send_packets, end_frame, send_packed,
  send_with, send_frame, send_report, interleaved_timeout, has_sender,
}

abbrev pub on_channel : ℕ → List RtpPacket → List Message
on_channel channel packets = map (λ x. (channel, x.bytes)) packets

module _ (l : Link) (shutdown : l.Conn → l.Conn) where
  -- Whether the connection takes the packets whole, one after the other.
  unfoldable pub takes_all : ℕ → List RtpPacket → l.Conn → Bool
  takes_all channel [] c = true
  takes_all channel (x ∷ packets) c =
      let (c', whole) = l.send_all c (interleaved channel x.bytes) interleaved_timeout in
      let rest = takes_all channel packets c' in whole && rest

  -- A packet on a connection that is open: a failure, or all of its frame on the wire.
  packet_sent :
      (s : ClientSession) (x : RtpPacket) (out : Outlet l shutdown)
      → s.use_tcp_interleaved ≡ true
      → l.is_valid out.conn ≡ true
      → let after = send_packet l shutdown s x out in
        let sending =
          l.send_all out.conn (interleaved s.interleaved_rtp_channel x.bytes) interleaved_timeout in
        ((sending.1 ≡ false) × (after.send_failed ≡ true))
        ⊎ ((sending.1 ≡ true)
            × (after.send_failed ≡ out.send_failed)
            × (after.conn ≡ sending.0)
            × (l.is_valid after.conn ≡ true)
            × (l.wire after.conn
                ≡ l.wire out.conn ++ interleaved s.interleaved_rtp_channel x.bytes))
  unfolding send_packet send_interleaved
  packet_sent s x out t v =
      let bytes = interleaved s.interleaved_rtp_channel x.bytes in
      elim (Bool-cases (l.send_all out.conn bytes interleaved_timeout).1) [
        | inl y ↦
            rw (t, v, y)
              (inr (
                refl,
                refl,
                refl,
                l.stays_valid out.conn bytes interleaved_timeout ∙ v,
                l.all_sent out.conn bytes interleaved_timeout y,
              ))
        | inr n ↦ rw (t, v, n) (inl (refl, refl))
      ]

  -- A failure is not forgotten.
  failed_once :
      (s : ClientSession) (x : RtpPacket) (out : Outlet l shutdown)
      → s.use_tcp_interleaved ≡ true
      → out.send_failed ≡ true
      → (send_packet l shutdown s x out).send_failed ≡ true
  unfolding send_packet send_interleaved
  failed_once s x out t h =
      let bytes = interleaved s.interleaved_rtp_channel x.bytes in
      elim (Bool-cases (l.is_valid out.conn)) [
        | inr shut ↦ rw (t, shut) h
        | inl v ↦ elim (Bool-cases (l.send_all out.conn bytes interleaved_timeout).1) [
          | inl y ↦ rw (t, v, y) h
          | inr n ↦ rw (t, v, n) refl
        ]
      ]

  failed_stays :
      (s : ClientSession) (packets : List RtpPacket) (out : Outlet l shutdown)
      → s.use_tcp_interleaved ≡ true
      → out.send_failed ≡ true
      → (send_packets l shutdown s packets out).send_failed ≡ true
  unfolding send_packets
  failed_stays s [] out t h = h
  failed_stays s (x ∷ packets) out t h =
      failed_stays s packets (send_packet l shutdown s x out) t (failed_once s x out t h)

  packets_sent :
      (s : ClientSession) (packets : List RtpPacket) (out : Outlet l shutdown)
      → s.use_tcp_interleaved ≡ true
      → l.is_valid out.conn ≡ true
      → let after = send_packets l shutdown s packets out in
        let whole = takes_all s.interleaved_rtp_channel packets out.conn in
        ((whole ≡ false) × (after.send_failed ≡ true))
        ⊎ ((whole ≡ true)
            × (after.send_failed ≡ out.send_failed)
            × (l.wire after.conn
                ≡ l.wire out.conn ++ framed_all (on_channel s.interleaved_rtp_channel packets)))
  unfolding send_packets framed_all takes_all
  packets_sent s [] out t v = inr (refl, refl, sym (append-nil (l.wire out.conn)))
  packets_sent s (x ∷ packets) out t v =
      let next = send_packet l shutdown s x out in
      let others = framed_all (on_channel s.interleaved_rtp_channel packets) in
      elim (packet_sent s x out t v) [
        | inl (n, failed) ↦ inl (rw n refl, failed_stays s packets next t failed)
        | inr (y, f, c, v', w) ↦
            let rest : takes_all s.interleaved_rtp_channel (x ∷ packets) out.conn
                ≡ takes_all s.interleaved_rtp_channel packets next.conn =
              rw y (ap (takes_all s.interleaved_rtp_channel packets) (sym c)) in
            elim (packets_sent s packets next t v') [
              | inl (n, failed) ↦ inl (rest ∙ n, failed)
              | inr (y', f', w') ↦ inr (
                rest ∙ y',
                f' ∙ f,
                w' ∙ (ap (λ z. z ++ others) w ∙ append_assoc (l.wire out.conn) _ others),
              )
            ]
      ]

  -- The round, when the packer answers.
  pub frame_packed :
      (s : ClientSession) (now seconds : ℕ) (frame : VideoFrame) (out : Outlet l shutdown)
      (codec : CodecType) (p after : Packer) (packets : List RtpPacket)
      → s.rtp_packer ≡ some (codec, p)
      → (s.use_tcp_interleaved || has_sender s.rtp_sender) ≡ true
      → pack_frame_as codec p frame ≡ some (after, packets)
      → send_frame l shutdown s now seconds frame out
        ≡ some (
            end_frame l shutdown
              (record s { rtp_packer = some (codec, after) })
              now
              seconds
              frame
              (send_packets l shutdown s packets (record out { send_failed = false })))
  unfolding send_frame
  frame_packed s now seconds frame out codec p after packets e t k =
      ap (send_with l shutdown s now seconds frame out) e
      ∙ (ap
            (λ b.
              if b
              then send_packed l shutdown s codec now seconds frame out
                  (pack_frame_as codec p frame)
              else some (s, out))
            t
          ∙ ap (send_packed l shutdown s codec now seconds frame out) k)

  end-failed :
      (s : ClientSession) (now seconds : ℕ) (frame : VideoFrame) (out : Outlet l shutdown)
      → out.send_failed ≡ true
      → (end_frame l shutdown s now seconds frame out).0.playing ≡ false
  unfolding end_frame
  end-failed s now seconds frame out f = rw f refl

  end-sent :
      (s : ClientSession) (now seconds : ℕ) (frame : VideoFrame) (out : Outlet l shutdown)
      → s.use_tcp_interleaved ≡ true
      → out.send_failed ≡ false
      → end_frame l shutdown s now seconds frame out ≡ (record s { last_activity = now }, out)
  unfolding end_frame send_report
  end-sent s now seconds frame out t f = simp (t, f)

  -- A round of a session on an open control connection, with a packer that answers: if the connection
  -- does not take all packets whole, the session plays no more; otherwise the framed packets are on
  -- the wire, in order, and the session has the packer after them.
  pub send_frame-framed :
      (s : ClientSession) (now seconds : ℕ) (frame : VideoFrame) (out : Outlet l shutdown)
      (codec : CodecType) (p after : Packer) (packets : List RtpPacket)
      → s.rtp_packer ≡ some (codec, p)
      → s.use_tcp_interleaved ≡ true
      → l.is_valid out.conn ≡ true
      → pack_frame_as codec p frame ≡ some (after, packets)
      → (s' : ClientSession) × (out' : Outlet l shutdown) × (send_frame l shutdown s now seconds
            frame out
          ≡ some (s', out'))
        × (((takes_all s.interleaved_rtp_channel packets out.conn ≡ false) × (s'.playing ≡ false))
            ⊎ ((takes_all s.interleaved_rtp_channel packets out.conn ≡ true)
                × (s' ≡ record s { rtp_packer = some (codec, after); last_activity = now })
                × (l.wire out'.conn
                    ≡ l.wire out.conn
                      ++ framed_all (on_channel s.interleaved_rtp_channel packets))))
  send_frame-framed s now seconds frame out codec p after packets e t v k =
      let s1 = record s { rtp_packer = some (codec, after) } in
      let sent = send_packets l shutdown s packets (record out { send_failed = false }) in
      let round =
        frame_packed s now seconds frame out codec p after packets e
          (ap (λ b. b || has_sender s.rtp_sender) t) k in
      elim (packets_sent s packets (record out { send_failed = false }) t v) [
        | inl (n, failed) ↦ (_, _, round, inl (n, end-failed s1 now seconds frame sent failed))
        | inr (y, f, w) ↦
            let at_end = end-sent s1 now seconds frame sent t f in
            (_, _, round ∙ ap some at_end, inr (y, refl, w))
      ]
