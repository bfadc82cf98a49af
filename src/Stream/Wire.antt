-- ===== src/Stream/Wire.antt =====
-- A packet of the packer, src/rtsp-common/rtp_packer.cpp, in `processRtpPacket` of
-- src/client/rtsp_client.cpp.
use rtsp_sdk.Common.{
  ◌≤◌, ◌^◌, ◌%◌, ◌/◌, ℕ, ◌<◌, ◌≡◌, refl, Bool, true, false, some, List, length, drop, ltb, arith,
}
use rtsp_sdk.Common.Bits.{bit_set, low_bits}
use rtsp_sdk.Common.Bytes.{at, be16, be32, read_be16, read_be32}
use rtsp_sdk.Rtp.Frame.{h264}
use rtsp_sdk.Rtp.Packer.{Packer, rtp_header, make_packet}
use rtsp_sdk.Client.Receiver.{Receiver, is_h265}
use rtsp_sdk.Client.Receiver.Payload.{process_video_payload}
use rtsp_sdk.Client.Receiver.Packet.{
  note_seq, lose_fragments, header_len, unpadded, rtp_payload, handle_packet, process_rtp_packet,
}

header-make_packet :
    (p : Packer) (ts : ℕ) (marker : Bool) (body : List ℕ)
    → header_len (make_packet p ts marker body).bytes ≡ some 12
unfolding header_len make_packet rtp_header be16 be32
header-make_packet p ts marker body = ground arith

unpadded-make_packet :
    (p : Packer) (ts : ℕ) (marker : Bool) (body : List ℕ)
    → unpadded (make_packet p ts marker body).bytes 12 ≡ some body
unfolding unpadded make_packet rtp_header be16 be32
unpadded-make_packet p ts marker body = refl

payload-make_packet :
    (p : Packer) (ts : ℕ) (marker : Bool) (body : List ℕ)
    → rtp_payload (make_packet p ts marker body).bytes ≡ some body
unfolding rtp_payload
payload-make_packet p ts marker body =
    rw (header-make_packet p ts marker body, rtp_payload) (unpadded-make_packet p ts marker body)

time-make_packet :
    (p : Packer) (ts : ℕ) (marker : Bool) (body : List ℕ)
    → ts < 2 ^ 32
    → read_be32 (drop 4 (make_packet p ts marker body).bytes) ≡ ts
unfolding make_packet rtp_header be16 be32 read_be32
time-make_packet p ts marker body h = omega arith

-- The receiver after the header of a packet, H.264: nothing is lost.
unfoldable pub noted : Receiver → ℕ → Receiver
noted r seq = record r { seq_initialized = true; last_seq = seq }

note_seq-h264 : (r : Receiver) (seq : ℕ) → r.codec ≡ h264 → note_seq r seq ≡ noted r seq
unfolding note_seq lose_fragments is_h265 noted
note_seq-h264 r seq h = ground arith

long :
    (p : Packer) (ts : ℕ) (marker : Bool) (body : List ℕ)
    → ltb (length (make_packet p ts marker body).bytes) 12 ≡ false
unfolding make_packet rtp_header be16 be32
long p ts marker body = ground arith

version :
    (p : Packer) (ts : ℕ) (marker : Bool) (body : List ℕ)
    → at (make_packet p ts marker body).bytes 0 ≡ 128
unfolding make_packet rtp_header
version p ts marker body = refl

second :
    (p : Packer) (ts : ℕ) (marker : Bool) (body : List ℕ)
    → at (make_packet p ts marker body).bytes 1 ≡ p.payload_type
unfolding make_packet rtp_header
second p ts marker body = refl

seq-make_packet :
    (p : Packer) (ts : ℕ) (marker : Bool) (body : List ℕ)
    → read_be16 (drop 2 (make_packet p ts marker body).bytes) ≡ read_be16 (be16 p.seq)
unfolding make_packet rtp_header be16 read_be16
seq-make_packet p ts marker body = refl

no_marker : (v : ℕ) → v < 128 → bit_set v 7 ≡ false
no_marker v h = let e : v / 128 % 2 ≡ 0 = omega arith in rw (e, bit_set) refl

low7 : (v : ℕ) → v < 128 → low_bits v 7 ≡ v
low7 v h = omega arith

-- The marker of the packet does not reach the receiver.
pub process-make_packet :
    (p : Packer) (r : Receiver) (ts : ℕ) (marker : Bool) (body : List ℕ)
    → p.payload_type < 128
    → ts < 2 ^ 32
    → r.codec ≡ h264
    → process_rtp_packet r (make_packet p ts marker body).bytes
      ≡ process_video_payload (noted r (read_be16 (be16 p.seq))) body ts false p.payload_type
unfolding process_rtp_packet handle_packet
process-make_packet p r ts marker body hp ht hc =
    rw
      (
        long p ts marker body,
        version p ts marker body,
        payload-make_packet p ts marker body,
        seq-make_packet p ts marker body,
        note_seq-h264 r (read_be16 (be16 p.seq)) hc,
        time-make_packet p ts marker body ht,
        second p ts marker body,
        no_marker p.payload_type hp,
        low7 p.payload_type hp,
      )
      refl

-- The number of the packet on the wire, and its length.
pub wire_seq :
    (p : Packer) (ts : ℕ) (marker : Bool) (body : List ℕ)
    → p.seq < 2 ^ 16
    → read_be16 (drop 2 (make_packet p ts marker body).bytes) ≡ p.seq
unfolding make_packet rtp_header be16 read_be16
wire_seq p ts marker body h = omega arith

pub twelve :
    (p : Packer) (ts : ℕ) (marker : Bool) (body : List ℕ)
    → 12 ≤ length (make_packet p ts marker body).bytes
unfolding make_packet rtp_header be16 be32
twelve p ts marker body = omega arith
