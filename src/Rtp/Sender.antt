-- ===== src/Rtp/Sender.antt =====
-- `RtpSender` of src/rtsp-common/rtp_packer.cpp, with what it hands to its sockets.
use rtsp_sdk.Common.{ℕ, ◌+◌, ◌*◌, ◌≡◌, List, [], ◌∷◌, ◌++◌, length, drop, ◌==◌, if◌then◌else◌}
use rtsp_sdk.Common.Bytes.{at, be32, be64, read_be16, read_be32, read_be64}

pub record Sender : Type 0 where
  pub peer_ip : List ℕ
  pub peer_rtp_port : ℕ
  pub peer_rtcp_port : ℕ
  pub ssrc : ℕ

abbrev pub new_sender : Sender
new_sender = record { peer_ip = []; peer_rtp_port = 0; peer_rtcp_port = 0; ssrc = 0x1234_5678 }

unfoldable pub set_peer : Sender → List ℕ → ℕ → ℕ → Sender
set_peer s ip rtp_port rtcp_port = record s {
  peer_ip = ip;
  peer_rtp_port = rtp_port;
  peer_rtcp_port = rtcp_port;
}

unfoldable pub set_report_ssrc : Sender → ℕ → Sender
set_report_ssrc s ssrc = record s { ssrc = ssrc }

-- The bytes that `sendSenderReport` sends: the first 28 of its buffer of 52.
unfoldable pub sender_report : Sender → ℕ → ℕ → ℕ → ℕ → List ℕ
sender_report s rtp_timestamp ntp_timestamp packet_count octet_count =
    0x80
    ∷ 200
    ∷ 0
    ∷ 12
    ∷ (be32 s.ssrc
        ++ (be64 ntp_timestamp ++ (be32 rtp_timestamp ++ (be32 packet_count ++ be32 octet_count))))

-- What is handed to `sendTo` of a socket; the kernel may lose it.
pub record Datagram : Type 0 where
  pub to_ip : List ℕ
  pub to_port : ℕ
  pub bytes : List ℕ

-- `sendRtpPacket`, on the datagrams so far.
unfoldable pub send_rtp_packet : Sender → List ℕ → List Datagram → List Datagram
send_rtp_packet s packet log =
    if s.peer_rtp_port == 0
    then log
    else log ++ (record { to_ip = s.peer_ip; to_port = s.peer_rtp_port; bytes = packet } ∷ [])

-- `sendSenderReport`.
unfoldable pub send_sender_report : Sender → ℕ → ℕ → ℕ → ℕ → List Datagram → List Datagram
send_sender_report s rtp_timestamp ntp_timestamp packet_count octet_count log =
    let sr = sender_report s rtp_timestamp ntp_timestamp packet_count octet_count in
    if s.peer_rtcp_port == 0
    then log
    else log ++ (record { to_ip = s.peer_ip; to_port = s.peer_rtcp_port; bytes = sr } ∷ [])

-- The fields of a sender report where RFC 3550 has them, and its length.
pub record Reports (sr : List ℕ) (ssrc ntp rtp packets octets : ℕ) : Type 0 where
  pub packet_type : at sr 1 ≡ 200
  pub ssrc_field : read_be32 (drop 4 sr) ≡ ssrc
  pub ntp_field : read_be64 (drop 8 sr) ≡ ntp
  pub rtp_field : read_be32 (drop 16 sr) ≡ rtp
  pub packets_field : read_be32 (drop 20 sr) ≡ packets
  pub octets_field : read_be32 (drop 24 sr) ≡ octets
  pub size : length sr ≡ 28
  pub said : (read_be16 (drop 2 sr) + 1) * 4 ≡ 52
