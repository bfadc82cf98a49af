-- ===== src/Server/Session/Sending.antt =====
-- `sendLoop` of `ClientSession` in src/server/rtsp_server.cpp: a frame taken from the queue, packed,
-- and sent over the control connection or as datagrams.
pub mod Framed
pub mod Datagrams
use rtsp_sdk.Common.{
  ℕ, ◌+◌, ◌*◌, ◌%◌, ◌^◌, ◌==◌, Bool, true, false, not, ◌&&◌, ◌||◌, Option, none, some, List, [],
  ◌∷◌, length, if◌then◌else◌,
}
use rtsp_sdk.Net.Link.{Link}
use rtsp_sdk.Rtp.Frame.{CodecType, h264, h265, VideoFrame, RtpPacket, convert_to_rtp_timestamp}
use rtsp_sdk.Rtp.Packer.{Packer, Packed, pack_frame_h264, pack_frame_h265}
use rtsp_sdk.Rtp.Sender.{Datagram, send_rtp_packet, send_sender_report}
use rtsp_sdk.Server.Session.{ClientSession, LocalSender, Turn, done, wait, send, send_turn}
use rtsp_sdk.Server.Session.Interleaved.{interleaved}

-- `packFrame` of the packer that SETUP has made for the codec.
unfoldable pub pack_frame_as : CodecType → Packer → VideoFrame → Packed
pack_frame_as h264 = pack_frame_h264
pack_frame_as h265 = pack_frame_h265

-- What only `sendLoop` counts: in the session in 32 bits, in the statistics of the server in 64.
pub record SendCounts : Type 0 where
  pub packet_count : ℕ
  pub octet_count : ℕ
  pub rtp_packets_sent : ℕ
  pub rtp_bytes_sent : ℕ

unfoldable pub count_packet : RtpPacket → SendCounts → SendCounts
count_packet x n = record {
  packet_count = (n.packet_count + 1) % 2 ^ 32;
  octet_count = (n.octet_count + length x.bytes) % 2 ^ 32;
  rtp_packets_sent = (n.rtp_packets_sent + 1) % 2 ^ 64;
  rtp_bytes_sent = (n.rtp_bytes_sent + length x.bytes) % 2 ^ 64;
}

abbrev pub interleaved_timeout : ℕ
interleaved_timeout = 2000

abbrev pub has_sender : Option LocalSender → Bool
has_sender none = false
has_sender (some s) = true

-- Seconds since 1970 as an NTP time, in 64 bits.
unfoldable pub ntp_time : ℕ → ℕ
ntp_time seconds = (seconds + 2_208_988_800) * 2 ^ 32 % 2 ^ 64

-- Over the control connection, and `shutdownReadWrite` on it.
module _ (l : Link) (shutdown : l.Conn → l.Conn) where
  -- The connection, the datagrams so far, the counts, and `send_failed`.
  pub record Outlet : Type 0 where
    pub conn : l.Conn
    pub datagrams : List Datagram
    pub counts : SendCounts
    pub send_failed : Bool

  -- A framed packet; a connection that is not open takes nothing, which is no failure.
  unfoldable pub send_interleaved : ℕ → RtpPacket → Outlet → Outlet
  send_interleaved channel x out =
      let (c, whole) = l.send_all out.conn (interleaved channel x.bytes) interleaved_timeout in
      if l.is_valid out.conn
      then (if whole
          then record out { conn = c }
          else record out { conn = shutdown c; send_failed = true })
      else out

  abbrev pub send_datagram : Option LocalSender → RtpPacket → Outlet → Outlet
  send_datagram none x out = out
  send_datagram (some s) x out = record out {
    datagrams = send_rtp_packet s.sender x.bytes out.datagrams;
  }

  unfoldable pub send_packet : ClientSession → RtpPacket → Outlet → Outlet
  send_packet s x out =
      let sent =
        (if s.use_tcp_interleaved
          then send_interleaved s.interleaved_rtp_channel x out
          else send_datagram s.rtp_sender x out) in
      record sent { counts = count_packet x sent.counts }

  -- The packets of a frame; a failure does not end the loop.
  unfoldable pub send_packets : ClientSession → List RtpPacket → Outlet → Outlet
  send_packets s [] out = out
  send_packets s (x ∷ packets) out = send_packets s packets (send_packet s x out)

  abbrev pub report_from : Option LocalSender → ℕ → ℕ → Outlet → Outlet
  report_from none rtp ntp out = out
  report_from (some s) rtp ntp out = record out {
    datagrams =
        send_sender_report s.sender rtp ntp out.counts.packet_count out.counts.octet_count
          out.datagrams;
  }

  -- Behind the packets of a frame that were sent: a sender report, over UDP, when the count of packets
  -- is a multiple of 100.
  unfoldable pub send_report : ClientSession → ℕ → VideoFrame → Outlet → Outlet
  send_report s seconds frame out =
      if not s.use_tcp_interleaved && out.counts.packet_count % 100 == 0
      then report_from s.rtp_sender (convert_to_rtp_timestamp frame.pts 90000) (ntp_time seconds)
          out
      else out

  -- After the packets: a failure ends the loop, success is a sign of life.
  unfoldable pub end_frame : ClientSession → ℕ → ℕ → VideoFrame → Outlet → ClientSession × Outlet
  end_frame s now seconds frame out =
      if out.send_failed
      then (record s { playing = false }, out)
      else (record s { last_activity = now }, send_report s seconds frame out)

  abbrev pub send_packed :
      ClientSession
      → CodecType
      → ℕ
      → ℕ
      → VideoFrame
      → Outlet
      → Packed
      → Option (ClientSession × Outlet)
  send_packed s codec now seconds frame out none = none
  send_packed s codec now seconds frame out (some (p, packets)) = some (
      end_frame (record s { rtp_packer = some (codec, p) }) now seconds frame
        (send_packets s packets (record out { send_failed = false })))

  abbrev pub send_with :
      ClientSession
      → ℕ
      → ℕ
      → VideoFrame
      → Outlet
      → Option (CodecType × Packer)
      → Option (ClientSession × Outlet)
  send_with s now seconds frame out none = some (s, out)
  send_with s now seconds frame out (some (codec, p)) =
      if s.use_tcp_interleaved || has_sender s.rtp_sender
      then send_packed s codec now seconds frame out (pack_frame_as codec p frame)
      else some (s, out)

  -- A round of `sendLoop` on the frame it has taken; `none` is a packer that does not answer.
  unfoldable pub send_frame :
      ClientSession → ℕ → ℕ → VideoFrame → Outlet → Option (ClientSession × Outlet)
  send_frame s now seconds frame out = send_with s now seconds frame out s.rtp_packer

  abbrev pub round_on : ClientSession → ℕ → ℕ → Outlet → Turn → Option (ClientSession × Outlet)
  round_on s now seconds out done = some (s, out)
  round_on s now seconds out wait = some (s, out)
  round_on s now seconds out (send frame s') = send_frame s' now seconds frame out

  -- A round of `sendLoop`.
  unfoldable pub send_round : ClientSession → ℕ → ℕ → Outlet → Option (ClientSession × Outlet)
  send_round s now seconds out = round_on s now seconds out (send_turn s)
