-- ===== src/Stream/Examples.antt =====
-- The theorems on frames at a camera's first two frames.
use rtsp_sdk.Common.{
  sym, ℕ, ◌≡◌, ◌≢◌, ◌⊎◌, refl, inl, true, false, some, List, [], ◌∷◌, concat, arith,
}
use rtsp_sdk.Common.Bytes.{be16}
use rtsp_sdk.Rtp.Frame.{VideoFrame, h264, idr, convert_to_rtp_timestamp}
use rtsp_sdk.Rtp.Nalu.AnnexB.{annex_b, units_of}
use rtsp_sdk.Rtp.Nalu.RoundTrip.{parse_nalus-annex_b}
use rtsp_sdk.Rtp.Nalu.Safe.{Parses, parse_nalus-Inside}
use rtsp_sdk.Rtp.Nalu.{parse_nalus}
use rtsp_sdk.Rtp.Packer.{Packer, new_packer, make_packet}
use rtsp_sdk.Client.Receiver.{Receiver, new_receiver}
use rtsp_sdk.Client.Receiver.InOrder.{Waiting}
use rtsp_sdk.Client.Receiver.Packet.{ingest_rtp_packet}
use rtsp_sdk.Net.Socket.{socket_link, shutdown_read_write, wrote, again}
use rtsp_sdk.Server.Session.{ClientSession, new_session}
use rtsp_sdk.Server.Session.Interleaved.{interleaved, framed_all}
use rtsp_sdk.Server.Session.Sending.{Outlet, send_round}
use rtsp_sdk.Server.Session.Sending.Framed.{takes_all}
use rtsp_sdk.Client.Interleaved.{Pieces, tcp_receive}
use rtsp_sdk.Client.Interleaved.Stream.{take_messages, tcp_receive-framed_all}
use rtsp_sdk.Stream.Interleaved.{cut, added, send_round-tcp_receive}
use rtsp_sdk.Stream.Took.{Ready}
use rtsp_sdk.Stream.Delivery.{deliver}
use rtsp_sdk.Stream.Frames.{Sendable, Delivers, any_idr, pack_frame_h264-Delivers}
use rtsp_sdk.Stream.Emission.{frame_with, next_packet-emits}

abbrev small_mtu : Packer
small_mtu = record new_packer { mtu = 6 }

abbrev watching : Receiver
watching = record new_receiver { callback = true }

abbrev pps : List ℕ
pps = 0x68 ∷ 0xCE ∷ 0x38 ∷ 0x80 ∷ []

abbrev slice : List ℕ
slice = 0x65 ∷ 1 ∷ 2 ∷ 3 ∷ 4 ∷ 5 ∷ 6 ∷ 7 ∷ 8 ∷ []

abbrev first_frame : VideoFrame
first_frame = record {
  codec = h264;
  frame_type = idr;
  bytes =
      0 ∷ 0 ∷ 0 ∷ 1 ∷ 0x68 ∷ 0xCE ∷ 0x38 ∷ 0x80 ∷ 0 ∷ 0 ∷ 0 ∷ 1 ∷ 0x65 ∷ 1 ∷ 2 ∷ 3 ∷ 4 ∷ 5 ∷ 6 ∷ 7
      ∷ 8 ∷ [];
  pts = 40;
  dts = 40;
  width = 640;
  height = 480;
  fps = 25;
}

first_bytes : first_frame.bytes ≡ annex_b (pps ∷ slice ∷ [])
unfolding annex_b
first_bytes = refl

pps-Sendable : Sendable pps
pps-Sendable = record {
  some_bytes = omega arith;
  clean = (inl (omega arith), (inl (omega arith), (inl (omega arith), (inl (omega arith), tt))));
  header = omega arith;
  low = omega arith;
  high = omega arith;
}

slice-Sendable : Sendable slice
slice-Sendable = record {
  some_bytes = omega arith;
  clean = (
    inl (omega arith),
    (
      inl (omega arith),
      (
        inl (omega arith),
        (
          inl (omega arith),
          (
            inl (omega arith),
            (inl (omega arith), (inl (omega arith), (inl (omega arith), (inl (omega arith), tt)))),
          ),
        ),
      ),
    ),
  );
  header = omega arith;
  low = omega arith;
  high = omega arith;
}

ready : Ready watching (convert_to_rtp_timestamp 40 90000) 96
ready = record { codec = refl; payload = refl; joins = inl refl }

parse_nalus-annex_b_example :
    parse_nalus (annex_b (pps ∷ slice ∷ [])) ≡ some (units_of (pps ∷ slice ∷ []))
parse_nalus-annex_b_example = parse_nalus-annex_b (pps ∷ slice ∷ []) (
  (pps-Sendable.some_bytes, pps-Sendable.clean),
  ((slice-Sendable.some_bytes, slice-Sendable.clean), tt),
)

parse_nalus-Inside_example : Parses first_frame.bytes (parse_nalus first_frame.bytes)
parse_nalus-Inside_example = parse_nalus-Inside first_frame.bytes

waiting : Waiting watching 0
waiting = record { empty = refl; next = inl refl }

delivered : Delivers small_mtu watching first_frame (pps ∷ slice ∷ [])
delivered =
    pack_frame_h264-Delivers small_mtu watching first_frame pps (slice ∷ []) first_bytes
      pps-Sendable (slice-Sendable, tt) (omega arith, omega arith) (omega arith) (omega arith) ready
      waiting

pack_frame_h264-Delivers_example : Delivers small_mtu watching first_frame (pps ∷ slice ∷ [])
pack_frame_h264-Delivers_example =
    pack_frame_h264-Delivers small_mtu watching first_frame pps (slice ∷ []) first_bytes
      pps-Sendable (slice-Sendable, tt) (omega arith, omega arith) (omega arith) (omega arith) ready
      waiting

next_differs : 9000 ≢ convert_to_rtp_timestamp 40 90000
unfolding convert_to_rtp_timestamp
next_differs = omega arith

next_packet-emits_example :
    (ingest_rtp_packet
      (deliver watching delivered.packets)
      (make_packet delivered.after 9000 false (0x41 ∷ 1 ∷ [])).bytes).frames
    ≡ frame_with watching
        (convert_to_rtp_timestamp 40 90000)
        (annex_b (pps ∷ slice ∷ []))
        (any_idr (pps ∷ slice ∷ []))
      ∷ []
next_packet-emits_example =
    next_packet-emits small_mtu delivered.after watching first_frame pps (slice ∷ []) delivered 9000
      false (0x41 ∷ 1 ∷ []) refl (sym delivered.counts.payload_type)
      (omega (arith, delivered.counts.payload_type)) refl refl refl refl (omega arith) next_differs
      (omega arith)

-- A session that plays over its control connection, which takes a few bytes at a time.
abbrev over_tcp : ClientSession
over_tcp = record (new_session 1) {
  rtp_packer = some (h264, small_mtu);
  use_tcp_interleaved = true;
  playing = true;
  frame_queue = first_frame ∷ [];
}

abbrev slow_outlet : Outlet socket_link shutdown_read_write
slow_outlet = record {
  conn = record {
    is_open = true;
    schedule = wrote 9 ∷ again ∷ wrote 50 ∷ wrote 50 ∷ wrote 50 ∷ [];
    sent = b'O' ∷ b'K' ∷ [];
  };
  datagrams = [];
  counts = record { packet_count = 0; octet_count = 0; rtp_packets_sent = 0; rtp_bytes_sent = 0 };
  send_failed = false;
}

send_round-tcp_receive_example :
    (d : Delivers small_mtu watching first_frame (pps ∷ slice ∷ [])) × (s' : ClientSession)
    × (out' : Outlet socket_link shutdown_read_write) × (send_round socket_link shutdown_read_write
          over_tcp 9 1_700_000_000 slow_outlet
        ≡ some (s', out'))
    × (((takes_all socket_link shutdown_read_write 0 d.packets slow_outlet.conn ≡ false)
          × (s'.playing ≡ false))
        ⊎ ((takes_all socket_link shutdown_read_write 0 d.packets slow_outlet.conn ≡ true)
            × (s' ≡ record over_tcp {
              frame_queue = [];
              rtp_packer = some (h264, d.after);
              last_activity = 9;
            })
            × ((after : Pieces) × (tcp_receive 0 ingest_rtp_packet
                    (cut
                      (1 ∷ 5 ∷ 0 ∷ 12 ∷ [])
                      (added socket_link shutdown_read_write slow_outlet.conn out'.conn))
                    watching
                  ≡ (deliver watching d.packets, after))
                × (concat after ≡ []))))
unfolding new_session
send_round-tcp_receive_example =
    send_round-tcp_receive socket_link shutdown_read_write over_tcp 9 1_700_000_000 first_frame []
      slow_outlet small_mtu watching pps (slice ∷ []) (1 ∷ 5 ∷ 0 ∷ 12 ∷ []) refl refl refl refl refl
      (omega arith, omega arith) (omega arith, omega arith) first_bytes
      (pps-Sendable, (slice-Sendable, tt)) ready waiting

-- Two packets on two channels, in pieces that do not end where they end.
framed_pieces :
    concat ((b'$' ∷ 1 ∷ 0 ∷ []) ∷ [] ∷ (1 ∷ 7 ∷ b'$' ∷ 0 ∷ []) ∷ (0 ∷ 1 ∷ 9 ∷ []) ∷ [])
    ≡ framed_all ((1, 7 ∷ []) ∷ (0, 9 ∷ []) ∷ [])
unfolding framed_all interleaved be16
framed_pieces = refl

tcp_receive-framed_all_example :
    (after : Pieces) × (tcp_receive 0 ingest_rtp_packet
        ((b'$' ∷ 1 ∷ 0 ∷ []) ∷ [] ∷ (1 ∷ 7 ∷ b'$' ∷ 0 ∷ []) ∷ (0 ∷ 1 ∷ 9 ∷ []) ∷ [])
        watching
      ≡ (take_messages 0 ingest_rtp_packet ((1, 7 ∷ []) ∷ (0, 9 ∷ []) ∷ []) watching, after))
    × (concat after ≡ [])
tcp_receive-framed_all_example =
    tcp_receive-framed_all 0 ingest_rtp_packet
      ((b'$' ∷ 1 ∷ 0 ∷ []) ∷ [] ∷ (1 ∷ 7 ∷ b'$' ∷ 0 ∷ []) ∷ (0 ∷ 1 ∷ 9 ∷ []) ∷ [])
      ((1, 7 ∷ []) ∷ (0, 9 ∷ []) ∷ []) watching framed_pieces (omega arith, (omega arith, tt))
