-- ===== src/Rtp/Packer.antt =====
-- `H264RtpPacker` and `H265RtpPacker` of src/rtsp-common/rtp_packer.cpp.
pub mod Content
pub mod Packs
pub mod Bounds
use Prim.Native.Nat.{bit_or}
use rtsp_sdk.Common.{
  ℕ, zero, suc, ◌+◌, ◌-◌, ◌%◌, ◌^◌, Bool, true, false, ◌&&◌, ◌||◌, Option, none, some, List, [],
  ◌∷◌, ◌++◌, length, take, drop, min, ltb, leb, ◌==◌, if◌then◌else◌,
}
use rtsp_sdk.Common.Bits.{shl, shr, low_bits}
use rtsp_sdk.Common.Bytes.{at, be16, be32}
use rtsp_sdk.Rtp.Frame.{VideoFrame, NaluUnit, RtpPacket, convert_to_rtp_timestamp}
use rtsp_sdk.Rtp.Nalu.{parse_nalus}

-- The fields of the base class and of either packer.
pub record Packer : Type 0 where
  pub ssrc : ℕ
  pub payload_type : ℕ
  pub clock_rate : ℕ
  pub seq : ℕ
  pub mtu : ℕ

abbrev pub new_packer : Packer
new_packer = record {
  ssrc = 0x1234_5678;
  payload_type = 96;
  clock_rate = 90000;
  seq = 0;
  mtu = 1400;
}

unfoldable pub set_ssrc : Packer → ℕ → Packer
set_ssrc p ssrc = record p { ssrc = ssrc }

unfoldable pub set_payload_type : Packer → ℕ → Packer
set_payload_type p pt = record p { payload_type = pt }

unfoldable pub set_clock_rate : Packer → ℕ → Packer
set_clock_rate p rate = record p { clock_rate = rate }

unfoldable pub set_mtu : Packer → ℕ → Packer
set_mtu p mtu = record p { mtu = mtu }

-- `seq_++` on a uint16_t: the packer after it; the value is the old `seq`.
unfoldable pub next_seq : Packer → Packer
next_seq p = record p { seq = (p.seq + 1) % 2 ^ 16 }

-- The twelve bytes of the RTP header.
unfoldable pub rtp_header : Packer → ℕ → List ℕ
rtp_header p timestamp = 0x80 ∷ p.payload_type ∷ (be16 p.seq ++ (be32 timestamp ++ be32 p.ssrc))

-- One packet with its header and body; the packer counts the sequence number on.
unfoldable pub make_packet : Packer → ℕ → Bool → List ℕ → RtpPacket
make_packet p timestamp marker body = record {
  bytes = rtp_header p timestamp ++ body;
  seq = p.seq;
  timestamp = timestamp;
  ssrc = p.ssrc;
  marker = marker;
}

-- How many bytes of a start code stand at the front of a unit.
unfoldable pub start_code_at : List ℕ → ℕ → ℕ
start_code_at p size =
    if ltb 3 size && (at p 0 == 0 && (at p 1 == 0 && at p 2 == 1))
    then 3
    else if ltb 4 size && (at p 0 == 0 && (at p 1 == 0 && (at p 2 == 0 && at p 3 == 1)))
    then 4
    else 0

-- The bytes of a unit behind such a start code.
unfoldable pub nalu_content : NaluUnit → List ℕ
nalu_content n = let skip = start_code_at n.bytes n.size in take (n.size - skip) (drop skip n.bytes)

-- `packSingleNalu`; a unit shorter than `least` (1 for H.264, 2 for H.265) gives no packet.
unfoldable pub pack_single_nalu :
    ℕ → Packer → NaluUnit → ℕ → List RtpPacket → Packer × List RtpPacket
pack_single_nalu least p n timestamp packets =
    if ltb (length (nalu_content n)) least
    then (p, packets)
    else (next_seq p, packets ++ (make_packet p timestamp false (nalu_content n) ∷ []))

abbrev pub Packed : Type 0
Packed = Option (Packer × List RtpPacket)

-- The loop over the fragments. `prefix first last` is the bytes in front of the fragment and `rest`
-- the payload from `offset` on. `none` is no result of the code: the fuel ran out.
unfoldable pub fragment_loop :
    ℕ → (Bool → Bool → List ℕ) → ℕ → Packer → ℕ → Bool → List ℕ → List RtpPacket → Packed
fragment_loop zero prefix max_fragment p timestamp first rest packets = none
fragment_loop (suc f) prefix max_fragment p timestamp first rest packets =
    let k = min max_fragment (length rest) in
    let last = leb (length rest) k in
    let packet = make_packet p timestamp last (prefix first last ++ take k rest) in
    let more =
      fragment_loop f prefix max_fragment (next_seq p) timestamp false (drop k rest)
        (packets ++ (packet ∷ [])) in
    if length rest == 0 then some (p, packets) else more

-- The FU indicator and the FU header of H.264, for the header byte of the unit.
unfoldable pub fu_a_prefix : ℕ → Bool → Bool → List ℕ
fu_a_prefix header first last =
    bit_or (shl (low_bits (shr header 5) 2) 5) 28
    ∷ bit_or (bit_or (low_bits header 5) (if first then 0x80 else 0)) (if last then 0x40 else 0)
    ∷ []

-- `mtu_ - k` in size_t.
abbrev pub size_sub : ℕ → ℕ → ℕ
size_sub a k = (a + 2 ^ 64 - k) % 2 ^ 64

-- `packFuA`.
unfoldable pub pack_fu_a : Packer → NaluUnit → ℕ → List RtpPacket → Packed
pack_fu_a p n timestamp packets =
    let content = nalu_content n in
    if leb (length content) 1
    then some (p, packets)
    else fragment_loop (length content) (fu_a_prefix (at content 0)) (size_sub p.mtu 2) p timestamp
        true (drop 1 content) packets

-- The payload header and the FU header of H.265, for the two header bytes of the unit.
unfoldable pub fu_prefix : ℕ → ℕ → Bool → Bool → List ℕ
fu_prefix h0 h1 first last =
    let nalu_type = low_bits (shr h0 1) 6 in
    let layer_id = bit_or (shl (low_bits h0 1) 5) (low_bits (shr h1 3) 5) in
    let temporal_id_plus1 = low_bits h1 3 in
    bit_or (shl 49 1) (low_bits (shr layer_id 5) 1)
    ∷ bit_or (shl (low_bits layer_id 5) 3) temporal_id_plus1
    ∷ bit_or (bit_or nalu_type (if first then 0x80 else 0)) (if last then 0x40 else 0)
    ∷ []

-- `packFu`.
unfoldable pub pack_fu : Packer → NaluUnit → ℕ → List RtpPacket → Packed
pack_fu p n timestamp packets =
    let content = nalu_content n in
    if leb (length content) 2
    then some (p, packets)
    else fragment_loop (length content) (fu_prefix (at content 0) (at content 1)) (size_sub p.mtu 3)
        p timestamp true (drop 2 content) packets

-- One unit of the frame, H.264.
unfoldable pub pack_nalu_h264 : Packer → NaluUnit → ℕ → List RtpPacket → Packed
pack_nalu_h264 p n timestamp packets =
    if n.size == 0 || (length (nalu_content n) == 0)
    then some (p, packets)
    else if leb (length (nalu_content n)) p.mtu
    then some (pack_single_nalu 1 p n timestamp packets)
    else pack_fu_a p n timestamp packets

-- One unit of the frame, H.265.
unfoldable pub pack_nalu_h265 : Packer → NaluUnit → ℕ → List RtpPacket → Packed
pack_nalu_h265 p n timestamp packets =
    if n.size == 0 || ltb (length (nalu_content n)) 2
    then some (p, packets)
    else if leb (length (nalu_content n)) p.mtu
    then some (pack_single_nalu 2 p n timestamp packets)
    else pack_fu p n timestamp packets

infixl 5 ◌>>=◌
abbrev pub ◌>>=◌ {ℓ κ} : {A : Type ℓ} {B : Type κ} → Option A → (A → Option B) → Option B
none >>= k = none
some a >>= k = k a

unfoldable pub pack_nalus :
    (Packer → NaluUnit → ℕ → List RtpPacket → Packed)
    → Packer
    → List NaluUnit
    → ℕ
    → List RtpPacket
    → Packed
pack_nalus pack p [] timestamp packets = some (p, packets)
pack_nalus pack p (n ∷ nalus) timestamp packets = do
  (p', packets') ← pack p n timestamp packets
  pack_nalus pack p' nalus timestamp packets'

-- `packets.back().marker = true`
unfoldable pub mark_last : List RtpPacket → List RtpPacket
mark_last [] = []
mark_last (x ∷ []) = record x { marker = true } ∷ []
mark_last (x ∷ (y ∷ r)) = x ∷ mark_last (y ∷ r)

unfoldable pub pack_frame_with :
    (Packer → NaluUnit → ℕ → List RtpPacket → Packed) → Packer → VideoFrame → Packed
pack_frame_with pack p frame = do
  nalus ← parse_nalus frame.bytes
  (p', packets) ← pack_nalus pack p nalus (convert_to_rtp_timestamp frame.pts p.clock_rate) []
  some (p', mark_last packets)

-- `packFrame` of either packer.
unfoldable pub pack_frame_h264 : Packer → VideoFrame → Packed
pack_frame_h264 = pack_frame_with pack_nalu_h264

unfoldable pub pack_frame_h265 : Packer → VideoFrame → Packed
pack_frame_h265 = pack_frame_with pack_nalu_h265
