-- ===== src/Stream/Frames.antt =====
-- A frame of H.264 from `packFrame` of src/rtsp-common/rtp_packer.cpp to the receiver of
-- src/client/rtsp_client.cpp.
use rtsp_sdk.Common.{
  ◌*◌, ℕ, ◌%◌, ◌^◌, ◌/◌, ◌<◌, ◌≤◌, ◌≡◌, refl, sym, ap, inl, inr, Bool, true, false, ◌||◌, some,
  List, [], ◌∷◌, ◌++◌, append-nil, length, drop, All, ltb, leb, ◌==◌, Bool-cases, arith,
}
use rtsp_sdk.Common.Bits.{low_bits}
use rtsp_sdk.Common.Bytes.{at, lengths}
use rtsp_sdk.Rtp.Frame.{NaluUnit, RtpPacket, VideoFrame, convert_to_rtp_timestamp}
use rtsp_sdk.Rtp.Nalu.AnnexB.{Clean, IsNalu, annex_b, unit_at, units_of}
use rtsp_sdk.Rtp.Nalu.RoundTrip.{parse_nalus-annex_b}
use rtsp_sdk.Rtp.Packer.{
  Packer, Packed, make_packet, nalu_content, size_sub, pack_single_nalu, pack_fu_a, pack_nalu_h264,
  pack_nalus, mark_last, pack_frame_with, pack_frame_h264,
}
use rtsp_sdk.Rtp.Packer.Content.{nalu_content-unit_at}
use rtsp_sdk.Client.Receiver.{Receiver}
use rtsp_sdk.Client.Receiver.Packet.{ingest_rtp_packet}
use rtsp_sdk.Client.Receiver.InOrder.{Waiting}
use rtsp_sdk.Stream.Took.{Ready, Took, fragment_bytes}
use rtsp_sdk.Stream.Delivery.{
  deliver, Counts, Brings, Matched, Matched-after, waits-next, single-process, Brings-trans,
  Brings-equal,
}
use rtsp_sdk.Stream.Fragments.{Brings-none, fragments-Brings}

-- A unit that a packet of H.264 can carry: not empty, clean, with the forbidden bit clear and one of
-- the types of single units.
pub record Sendable (u : List ℕ) : Type 0 where
  pub some_bytes : 0 < length u
  pub clean : Clean u
  pub header : at u 0 < 128
  pub low : 1 ≤ low_bits (at u 0) 5
  pub high : low_bits (at u 0) 5 ≤ 23

unfoldable pub idr_unit : List ℕ → Bool
idr_unit u = low_bits (at u 0) 5 == 5

unfoldable pub any_idr : List (List ℕ) → Bool
any_idr [] = false
any_idr (u ∷ us) = idr_unit u || any_idr us

-- The fragment of a packet has room for a byte and its number is no larger than a size.
abbrev pub GoodMtu : ℕ → Type 0
GoodMtu mtu = (2 < mtu) × (mtu < 2 ^ 64)

whole_unit :
    (u : List ℕ) → 0 < length u → fragment_bytes true (at u 0) (drop 1 u) ≡ 0 ∷ 0 ∷ 0 ∷ 1 ∷ u
unfolding fragment_bytes
whole_unit [] h = absurd (omega arith)
whole_unit (b ∷ u) h = refl

fu_a-Brings :
    (p : Packer) (r : Receiver) (ts : ℕ) (u : List ℕ) (n : NaluUnit) (packets : List RtpPacket)
    → Matched p r ts
    → GoodMtu p.mtu
    → Sendable u
    → 1 < length u
    → nalu_content n ≡ u
    → Brings p r ts packets (pack_fu_a p n ts packets) (0 ∷ 0 ∷ 0 ∷ 1 ∷ u) (idr_unit u)
unfolding pack_fu_a idr_unit
fu_a-Brings p r ts [] n packets m g s long e = absurd (omega arith)
fu_a-Brings p r ts (b ∷ u) n packets m g s long e =
    let test : leb (length (b ∷ u)) 1 ≡ false = ground arith in
    rw (e, test)
      (Brings-equal p r ts packets _ _ _ _ _ (whole_unit (b ∷ u) s.some_bytes) refl (
        fragments-Brings (length (b ∷ u)) (size_sub p.mtu 2) p r ts b true u packets m s.header
          (omega (arith, g.0, g.1)) (omega arith) (omega arith)))

single-Brings :
    (p : Packer) (r : Receiver) (ts : ℕ) (u : List ℕ) (n : NaluUnit) (packets : List RtpPacket)
    → Matched p r ts
    → Sendable u
    → nalu_content n ≡ u
    → Brings p r ts packets
        (some (pack_single_nalu 1 p n ts packets))
        (0 ∷ 0 ∷ 0 ∷ 1 ∷ u)
        (idr_unit u)
unfolding pack_single_nalu idr_unit
single-Brings p r ts u n packets m s e =
    let test : ltb (length u) 1 ≡ false = let l = s.some_bytes in ground arith in
    rw (e, test)
      (Brings-none p r ts packets (make_packet p ts false u) _ (0 ∷ 0 ∷ 0 ∷ 1 ∷ u) _ refl
        (single-process p r ts false u m s.some_bytes s.low s.high) (waits-next p r ts false u m))

above : (a b : ℕ) → leb a b ≡ false → b < a
above a b h = ground arith

nalu-Brings :
    (p : Packer) (r : Receiver) (ts : ℕ) (u w : List ℕ) (packets : List RtpPacket)
    → Matched p r ts
    → GoodMtu p.mtu
    → Sendable u
    → Brings p r ts packets
        (pack_nalu_h264 p (unit_at (u ++ w) (length u)) ts packets)
        (0 ∷ 0 ∷ 0 ∷ 1 ∷ u)
        (idr_unit u)
unfolding pack_nalu_h264 unit_at
nalu-Brings p r ts u w packets m g s =
    let e = nalu_content-unit_at u w s.clean in
    let n = unit_at (u ++ w) (length u) in
    let some_bytes = s.some_bytes in
    let test : (length u == 0) ≡ false = ground arith in
    elim (Bool-cases (leb (length u) p.mtu)) [
      | inl fits ↦ rw (e, test, fits) (single-Brings p r ts u n packets m s e)
      | inr large ↦
          rw (e, test, large)
            (fu_a-Brings p r ts u n packets m g s (omega (arith, g.0, above (length u) p.mtu large))
              e)
    ]

pack_nalus-step :
    (pack : Packer → NaluUnit → ℕ → List RtpPacket → Packed) (p p' : Packer) (n : NaluUnit)
    (nalus : List NaluUnit) (ts : ℕ) (packets packets' : List RtpPacket)
    → pack p n ts packets ≡ some (p', packets')
    → pack_nalus pack p (n ∷ nalus) ts packets ≡ pack_nalus pack p' nalus ts packets'
unfolding pack_nalus
pack_nalus-step pack p p' n nalus ts packets packets' e = rw e refl

pack_nalus-nil :
    (pack : Packer → NaluUnit → ℕ → List RtpPacket → Packed) (p : Packer) (ts : ℕ)
    (packets : List RtpPacket)
    → pack_nalus pack p [] ts packets ≡ some (p, packets)
unfolding pack_nalus
pack_nalus-nil pack p ts packets = refl

pub or-false : (b : Bool) → (b || false) ≡ b
or-false true = refl
or-false false = refl

nalus-Brings :
    (p : Packer) (r : Receiver) (ts : ℕ) (u : List ℕ) (us : List (List ℕ))
    (packets : List RtpPacket)
    → Matched p r ts
    → GoodMtu p.mtu
    → Sendable u
    → All Sendable us
    → Brings p r ts packets
        (pack_nalus pack_nalu_h264 p (units_of (u ∷ us)) ts packets)
        (annex_b (u ∷ us))
        (any_idr (u ∷ us))
unfolding units_of annex_b any_idr
nalus-Brings p r ts u [] packets m g s ss =
    let h = nalu-Brings p r ts u [] packets m g s in
    let n = unit_at (u ++ []) (length u) in
    rw (pack_nalus-step pack_nalu_h264 p h.after n [] ts packets (packets ++ h.more) h.result) (
      Brings-equal p r ts packets _ (0 ∷ 0 ∷ 0 ∷ 1 ∷ u) _ (idr_unit u) _
        (ap (λ z. 0 ∷ 0 ∷ 0 ∷ 1 ∷ z) (sym (append-nil u))) (sym (or-false (idr_unit u)))
        (record {
          after = h.after;
          more = h.more;
          result = pack_nalus-nil pack_nalu_h264 h.after ts (packets ++ h.more);
          counts = h.counts;
          took = h.took;
          waits = h.waits;
          small_seq = h.small_seq;
        }))
nalus-Brings p r ts u (v ∷ vs) packets m g s ss =
    let h = nalu-Brings p r ts u (annex_b (v ∷ vs)) packets m g s in
    let n = unit_at (u ++ annex_b (v ∷ vs)) (length u) in
    let mtu = h.counts.mtu in
    let ih =
      nalus-Brings h.after (deliver r h.more) ts v vs (packets ++ h.more)
        (Matched-after p h.after r (deliver r h.more) ts (0 ∷ 0 ∷ 0 ∷ 1 ∷ u) (idr_unit u) m h.counts
          h.took h.waits h.small_seq)
        (omega (arith, g.0), omega (arith, g.1)) ss.0 ss.1 in
    rw
      (pack_nalus-step pack_nalu_h264 p h.after n (units_of (v ∷ vs)) ts packets (packets ++ h.more)
        h.result)
      (Brings-trans p r ts packets _ _ (0 ∷ 0 ∷ 0 ∷ 1 ∷ u) (annex_b (v ∷ vs)) (idr_unit u) _ h ih)

-- The marker of the last packet alone.
abbrev pub Marked : List RtpPacket → Type 0
Marked [] = ⊥
Marked (x ∷ []) = x.marker ≡ true
Marked (x ∷ (y ∷ r)) = Marked (y ∷ r)

mark_last-Marked : (packets : List RtpPacket) → 0 < length packets → Marked (mark_last packets)
unfolding mark_last
mark_last-Marked [] h = absurd (omega arith)
mark_last-Marked (x ∷ []) h = refl
mark_last-Marked (x ∷ (y ∷ [])) h = refl
mark_last-Marked (x ∷ (y ∷ (z ∷ r))) h = mark_last-Marked (y ∷ (z ∷ r)) (omega arith)

deliver-mark_last :
    (r : Receiver) (packets : List RtpPacket) → deliver r (mark_last packets) ≡ deliver r packets
unfolding deliver mark_last
deliver-mark_last r [] = refl
deliver-mark_last r (x ∷ []) = refl
deliver-mark_last r (x ∷ (y ∷ s)) = deliver-mark_last (ingest_rtp_packet r x.bytes) (y ∷ s)

-- Packets that bring bytes are some packets.
some_packets :
    (r : Receiver) (packets : List RtpPacket) (ts : ℕ) (bytes : List ℕ) (b : Bool)
    → 0 < length bytes
    → Took r (deliver r packets) ts bytes b
    → 0 < length packets
unfolding deliver
some_packets r [] ts bytes b h t = let same = ap length t.buffer in absurd (omega (lengths, same))
some_packets r (x ∷ packets) ts bytes b h t = omega arith

-- The packer gives the packets of the frame, the last of them marked, and the receiver has taken
-- from them just the units; it has handed out no frame, and waits for the next number.
pub record Delivers (p : Packer) (r : Receiver) (frame : VideoFrame) (us : List (List ℕ))
    : Type 0 where
  pub after : Packer
  pub packets : List RtpPacket
  pub result : pack_frame_h264 p frame ≡ some (after, packets)
  pub marked : Marked packets
  pub counts : Counts p after
  pub took :
      Took r
        (deliver r packets)
        (convert_to_rtp_timestamp frame.pts p.clock_rate)
        (annex_b us)
        (any_idr us)
  pub waits : Waiting (deliver r packets) after.seq
  pub small_seq : after.seq < 2 ^ 16

pack_frame-result :
    (p p' : Packer) (frame : VideoFrame) (us : List (List ℕ)) (packets : List RtpPacket)
    → frame.bytes ≡ annex_b us
    → All IsNalu us
    → pack_nalus pack_nalu_h264 p (units_of us) (convert_to_rtp_timestamp frame.pts p.clock_rate) []
      ≡ some (p', packets)
    → pack_frame_h264 p frame ≡ some (p', mark_last packets)
unfolding pack_frame_h264 pack_frame_with
pack_frame-result p p' frame us packets e h result = rw (e, parse_nalus-annex_b us h, result) refl

All-IsNalu : (us : List (List ℕ)) → All Sendable us → All IsNalu us
All-IsNalu [] h = tt
All-IsNalu (u ∷ us) h = ((h.0.some_bytes, h.0.clean), All-IsNalu us h.1)

timestamp-lt : (pts clock_rate : ℕ) → convert_to_rtp_timestamp pts clock_rate < 2 ^ 32
unfolding convert_to_rtp_timestamp
timestamp-lt pts clock_rate = let v = pts * clock_rate % 2 ^ 64 / 1000 in omega arith

pub annex_b-some : (u : List ℕ) (us : List (List ℕ)) → 0 < length (annex_b (u ∷ us))
unfolding annex_b
annex_b-some u us = omega arith

-- A frame of units that single packets can carry, each behind a start code of four bytes, with an
-- MTU above 2 and a payload type below 128: the packer gives packets, the last one marked; where the
-- receiver is ready for their timestamp and payload type, waits for the first of them with nothing in
-- its reorder buffer, and gets them in order, its frame in progress grows by just these bytes, it knows
-- of an IDR unit if there is one, it has handed out no frame, although the marker of the last packet is
-- set, and it waits for the next number of the packer.
pub pack_frame_h264-Delivers :
    (p : Packer) (r : Receiver) (frame : VideoFrame) (u : List ℕ) (us : List (List ℕ))
    → frame.bytes ≡ annex_b (u ∷ us)
    → Sendable u
    → All Sendable us
    → GoodMtu p.mtu
    → p.payload_type < 128
    → p.seq < 2 ^ 16
    → Ready r (convert_to_rtp_timestamp frame.pts p.clock_rate) p.payload_type
    → Waiting r p.seq
    → Delivers p r frame (u ∷ us)
pack_frame_h264-Delivers p r frame u us e s ss g pt small ready waiting =
    let ts = convert_to_rtp_timestamp frame.pts p.clock_rate in
    let m : Matched p r ts = record {
      small_type = pt;
      small_seq = small;
      waiting = waiting;
      small_ts = timestamp-lt frame.pts p.clock_rate;
      ready = ready;
    } in
    let h = nalus-Brings p r ts u us [] m g s ss in
    record {
      after = h.after;
      packets = mark_last h.more;
      result =
          pack_frame-result p h.after frame (u ∷ us) h.more e (All-IsNalu (u ∷ us) (s, ss))
            h.result;
      marked = mark_last-Marked h.more (
          some_packets r h.more ts (annex_b (u ∷ us)) (any_idr (u ∷ us)) (annex_b-some u us)
            h.took);
      counts = h.counts;
      took = rw (deliver-mark_last r h.more) (h.took);
      waits = rw (deliver-mark_last r h.more) (h.waits);
      small_seq = h.small_seq;
    }
