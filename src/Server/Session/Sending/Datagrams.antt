-- ===== src/Server/Session/Sending/Datagrams.antt =====
-- What a round of `sendLoop` of src/server/rtsp_server.cpp hands to UDP, and what it counts.
use rtsp_sdk.Common.{ℕ, ◌+◌, ◌%◌, ◌^◌, ◌==◌, ◌≡◌, List, [], ◌∷◌, ◌++◌, map, length, if◌then◌else◌}
use rtsp_sdk.Net.Link.{Link}
use rtsp_sdk.Rtp.Frame.{VideoFrame, RtpPacket, convert_to_rtp_timestamp}
use rtsp_sdk.Rtp.Packer.{Packer}
use rtsp_sdk.Rtp.Sender.{Sender, Datagram, send_sender_report}
use rtsp_sdk.Server.Session.Sending.{SendCounts, Outlet, ntp_time}

-- A packet for the peer of a sender.
abbrev pub to_peer : Sender → RtpPacket → Datagram
to_peer s x = record { to_ip = s.peer_ip; to_port = s.peer_rtp_port; bytes = x.bytes }

-- The bytes of some packets, together.
unfoldable pub total : List RtpPacket → ℕ
total [] = 0
total (x ∷ packets) = length x.bytes + total packets

-- The report behind the packets of a frame, if their count calls for one.
unfoldable pub report_behind : Sender → ℕ → VideoFrame → SendCounts → List Datagram
report_behind s seconds frame n =
    if n.packet_count % 100 == 0
    then send_sender_report s (convert_to_rtp_timestamp frame.pts 90000) (ntp_time seconds)
        n.packet_count n.octet_count []
    else []

module _ (l : Link) (shutdown : l.Conn → l.Conn) where
  -- The outlet after some packets.
  record After (s : Sender) (packets : List RtpPacket) (out out' : Outlet l shutdown) : Type 0 where
    conn_same : out'.conn ≡ out.conn
    unfailed : out'.send_failed ≡ out.send_failed
    handed : out'.datagrams ≡ out.datagrams ++ map (to_peer s) packets
    counted : out'.counts.packet_count ≡ (out.counts.packet_count + length packets) % 2 ^ 32
    weighed : out'.counts.octet_count ≡ (out.counts.octet_count + total packets) % 2 ^ 32
