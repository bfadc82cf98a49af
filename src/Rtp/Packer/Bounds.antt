-- ===== src/Rtp/Packer/Bounds.antt =====
-- `packFrame` of either packer of src/rtsp-common/rtp_packer.cpp on any frame.
use rtsp_sdk.Common.{
  ℕ, ◌+◌, ◌%◌, ◌^◌, ◌<◌, ◌≤◌, ◌≡◌, refl, ◌∙◌, inl, inr, Bool, true, false, ◌||◌, some, List, [],
  ◌∷◌, ◌++◌, length, drop, length-drop, All, ltb, leb, ◌==◌, if◌then◌else◌, Bool-cases, arith,
}
use rtsp_sdk.Common.Bytes.{at}
use rtsp_sdk.Rtp.Frame.{NaluUnit, RtpPacket, VideoFrame, convert_to_rtp_timestamp}
use rtsp_sdk.Rtp.Nalu.Safe.{parse_nalus-Inside}
use rtsp_sdk.Rtp.Packer.{
  Packer, Packed, next_seq, make_packet, fu_a_prefix, fu_prefix, nalu_content, size_sub,
  pack_single_nalu, pack_fu_a, pack_fu, pack_nalu_h264, pack_nalu_h265, pack_nalus, mark_last,
  pack_frame_with, pack_frame_h264, pack_frame_h265,
}
use rtsp_sdk.Rtp.Packer.Packs.{
  Packs, Packs-none, Packs-packet, Packs-trans, fragments-Packs, Fits, Numbered,
}

either-Packs :
    (p : Packer) (packets : List RtpPacket) (b : Bool) (x y : Packed)
    → Packs p packets x
    → Packs p packets y
    → Packs p packets (if b then x else y)
either-Packs p packets true x y hx hy = hx
either-Packs p packets false x y hx hy = hy

single-Packs :
    (least : ℕ) (p : Packer) (n : NaluUnit) (ts : ℕ) (packets : List RtpPacket)
    → length (nalu_content n) ≤ p.mtu
    → Packs p packets (some (pack_single_nalu least p n ts packets))
unfolding pack_single_nalu
single-Packs least p n ts packets short = elim (Bool-cases (ltb (length (nalu_content n)) least)) [
  | inl e ↦ rw e (Packs-none p packets)
  | inr e ↦ rw e (
      Packs-packet p packets _ ts false (nalu_content n) short
        (Packs-none (next_seq p) (packets ++ (make_packet p ts false (nalu_content n) ∷ []))))
]

fu_a-Packs :
    (p : Packer) (n : NaluUnit) (ts : ℕ) (packets : List RtpPacket)
    → 2 < p.mtu
    → p.mtu < 2 ^ 64
    → Packs p packets (pack_fu_a p n ts packets)
unfolding pack_fu_a
fu_a-Packs p n ts packets low high =
    let content = nalu_content n in
    let shorter = length-drop 1 content in
    elim (Bool-cases (leb (length content) 1)) [
      | inl e ↦ rw e (Packs-none p packets)
      | inr e ↦ rw e (
          fragments-Packs (length content) 2 (size_sub p.mtu 2) (fu_a_prefix (at content 0)) p ts
            true (drop 1 content) packets (prefix-length (at content 0)) (omega arith) (omega arith)
            (ground arith))
    ]
  where
    prefix-length : (header : ℕ) (a b : Bool) → length (fu_a_prefix header a b) ≡ 2
    prefix-length header a b = unfold fu_a_prefix in refl

fu-Packs :
    (p : Packer) (n : NaluUnit) (ts : ℕ) (packets : List RtpPacket)
    → 3 < p.mtu
    → p.mtu < 2 ^ 64
    → Packs p packets (pack_fu p n ts packets)
unfolding pack_fu
fu-Packs p n ts packets low high =
    let content = nalu_content n in
    let shorter = length-drop 2 content in
    elim (Bool-cases (leb (length content) 2)) [
      | inl e ↦ rw e (Packs-none p packets)
      | inr e ↦ rw e (
          fragments-Packs (length content) 3 (size_sub p.mtu 3)
            (fu_prefix (at content 0) (at content 1)) p ts true (drop 2 content) packets
            (prefix-length (at content 0) (at content 1)) (omega arith) (omega arith)
            (ground arith))
    ]
  where
    prefix-length : (h0 h1 : ℕ) (a b : Bool) → length (fu_prefix h0 h1 a b) ≡ 3
    prefix-length h0 h1 a b = unfold fu_prefix in refl

fits_within : (a b : ℕ) → leb a b ≡ true → a ≤ b
fits_within a b h = ground arith

-- A unit in one packet where it fits, else in fragments.
sized-Packs :
    (p : Packer) (least : ℕ) (n : NaluUnit) (ts : ℕ) (packets : List RtpPacket) (res : Packed)
    → Packs p packets res
    → Packs p packets (
        if leb (length (nalu_content n)) p.mtu
        then some (pack_single_nalu least p n ts packets)
        else res)
sized-Packs p least n ts packets res h = elim (Bool-cases (leb (length (nalu_content n)) p.mtu)) [
  | inl e ↦ rw e (single-Packs least p n ts packets (fits_within (length (nalu_content n)) p.mtu e))
  | inr e ↦ rw e h
]

nalu_h264-Packs :
    (p : Packer) (n : NaluUnit) (ts : ℕ) (packets : List RtpPacket)
    → 2 < p.mtu
    → p.mtu < 2 ^ 64
    → Packs p packets (pack_nalu_h264 p n ts packets)
unfolding pack_nalu_h264
nalu_h264-Packs p n ts packets low high =
    either-Packs p packets (n.size == 0 || (length (nalu_content n) == 0)) _ _
      (Packs-none p packets) (sized-Packs p 1 n ts packets _ (fu_a-Packs p n ts packets low high))

nalu_h265-Packs :
    (p : Packer) (n : NaluUnit) (ts : ℕ) (packets : List RtpPacket)
    → 3 < p.mtu
    → p.mtu < 2 ^ 64
    → Packs p packets (pack_nalu_h265 p n ts packets)
unfolding pack_nalu_h265
nalu_h265-Packs p n ts packets low high =
    either-Packs p packets (n.size == 0 || ltb (length (nalu_content n)) 2) _ _
      (Packs-none p packets) (sized-Packs p 2 n ts packets _ (fu-Packs p n ts packets low high))

-- All the units, where the function for one of them keeps to it.
nalus-Packs :
    (pack : Packer → NaluUnit → ℕ → List RtpPacket → Packed) (mtu : ℕ)
    → ((p : Packer) (n : NaluUnit) (ts : ℕ) (packets : List RtpPacket)
        → p.mtu ≡ mtu
        → Packs p packets (pack p n ts packets))
    → (p : Packer) (nalus : List NaluUnit) (ts : ℕ) (packets : List RtpPacket) → p.mtu ≡ mtu
    → Packs p packets (pack_nalus pack p nalus ts packets)
unfolding pack_nalus
nalus-Packs pack mtu one p [] ts packets e = Packs-none p packets
nalus-Packs pack mtu one p (n ∷ nalus) ts packets e =
    let h = one p n ts packets e in
    let ih = nalus-Packs pack mtu one h.after nalus ts (packets ++ h.more) (h.mtu ∙ e) in
    rw (h.result) (Packs-trans p packets _ _ h ih)

mark_last-Fits :
    (mtu : ℕ) (packets : List RtpPacket)
    → All (Fits mtu) packets
    → All (Fits mtu) (mark_last packets)
unfolding mark_last
mark_last-Fits mtu [] h = tt
mark_last-Fits mtu (x ∷ []) h = h
mark_last-Fits mtu (x ∷ (y ∷ r)) h = (h.0, mark_last-Fits mtu (y ∷ r) h.1)

mark_last-Numbered :
    (s e : ℕ) (packets : List RtpPacket) → Numbered s packets e → Numbered s (mark_last packets) e
unfolding mark_last
mark_last-Numbered s e [] h = h
mark_last-Numbered s e (x ∷ []) h = h
mark_last-Numbered s e (x ∷ (y ∷ r)) h = (h.0, mark_last-Numbered ((s + 1) % 2 ^ 16) e (y ∷ r) h.1)

frame-Packs :
    (pack : Packer → NaluUnit → ℕ → List RtpPacket → Packed) (p : Packer) (frame : VideoFrame)
    → ((q : Packer) (n : NaluUnit) (ts : ℕ) (packets : List RtpPacket)
        → q.mtu ≡ p.mtu
        → Packs q packets (pack q n ts packets))
    → Packs p [] (pack_frame_with pack p frame)
unfolding pack_frame_with
frame-Packs pack p frame one =
    let parsed = parse_nalus-Inside frame.bytes in
    let ts = convert_to_rtp_timestamp frame.pts p.clock_rate in
    let h = nalus-Packs pack p.mtu one p parsed.0 ts [] refl in
    record {
      after = h.after;
      more = mark_last h.more;
      result = rw (parsed.1.0, h.result) refl;
      mtu = h.mtu;
      fits = mark_last-Fits p.mtu h.more h.fits;
      numbered = mark_last-Numbered p.seq h.after.seq h.more h.numbered;
    }

-- With an MTU above 2, on any frame, the packer of H.264 gives packets: none is longer than the
-- twelve bytes of its header and the MTU, and they are numbered on from the packer's number, modulo
-- 2 ^ 16, up to the number that the packer has then; the MTU stays.
pub pack_frame_h264-Packs :
    (p : Packer) (frame : VideoFrame)
    → 2 < p.mtu
    → p.mtu < 2 ^ 64
    → Packs p [] (pack_frame_h264 p frame)
unfolding pack_frame_h264
pack_frame_h264-Packs p frame low high =
    frame-Packs pack_nalu_h264 p frame
      (λ q n ts packets e. nalu_h264-Packs q n ts packets (omega arith) (omega arith))

-- The same for the packer of H.265 with an MTU above 3.
pub pack_frame_h265-Packs :
    (p : Packer) (frame : VideoFrame)
    → 3 < p.mtu
    → p.mtu < 2 ^ 64
    → Packs p [] (pack_frame_h265 p frame)
unfolding pack_frame_h265
pack_frame_h265-Packs p frame low high =
    frame-Packs pack_nalu_h265 p frame
      (λ q n ts packets e. nalu_h265-Packs q n ts packets (omega arith) (omega arith))
