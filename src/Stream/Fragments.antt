-- ===== src/Stream/Fragments.antt =====
-- The fragments of a unit of H.264, src/rtsp-common/rtp_packer.cpp, in the receiver of
-- src/client/rtsp_client.cpp.
use rtsp_sdk.Common.{
  subst, take_all, ℕ, zero, suc, ◌<◌, ◌≡◌, refl, ap, inl, inr, Bool, true, false, ◌&&◌, ◌||◌, some,
  List, [], ◌∷◌, ◌++◌, length, take, drop, take-append-drop, length-drop, min, leb, ◌==◌,
  Bool-cases, arith,
}
use rtsp_sdk.Common.Bits.{low_bits}
use rtsp_sdk.Rtp.Frame.{RtpPacket}
use rtsp_sdk.Rtp.Packer.{Packer, Packed, next_seq, make_packet, fu_a_prefix, fragment_loop}
use rtsp_sdk.Client.Receiver.{Receiver}
use rtsp_sdk.Client.Receiver.Packet.{ingest_rtp_packet}
use rtsp_sdk.Client.Receiver.InOrder.{Waiting}
use rtsp_sdk.Stream.Took.{Took, fragment_bytes}
use rtsp_sdk.Stream.Delivery.{
  deliver, Counts-next_seq, Brings, Matched, Matched-after, fragment-process, waits-next,
  next_seq-small, Brings-step, Brings-equal,
}

-- The fragment in front of the rest.
abbrev pub piece : ℕ → (Bool → Bool → List ℕ) → Packer → ℕ → Bool → List ℕ → RtpPacket
piece max_fragment prefix p ts first rest =
    let k = min max_fragment (length rest) in
    make_packet p ts (leb (length rest) k) (prefix first (leb (length rest) k) ++ take k rest)

pub loop-more :
    (f : ℕ) (prefix : Bool → Bool → List ℕ) (max_fragment : ℕ) (p : Packer) (ts : ℕ) (first : Bool)
    (rest : List ℕ) (packets : List RtpPacket)
    → 0 < length rest
    → fragment_loop (suc f) prefix max_fragment p ts first rest packets
      ≡ fragment_loop f prefix max_fragment
          (next_seq p)
          ts
          false
          (drop (min max_fragment (length rest)) rest)
          (packets ++ (piece max_fragment prefix p ts first rest ∷ []))
unfolding fragment_loop
loop-more f prefix max_fragment p ts first rest packets h =
    let e : (length rest == 0) ≡ false = ground arith in rw e refl

pub loop-done :
    (f : ℕ) (prefix : Bool → Bool → List ℕ) (max_fragment : ℕ) (p : Packer) (ts : ℕ) (first : Bool)
    (rest : List ℕ) (packets : List RtpPacket)
    → length rest ≡ 0
    → fragment_loop (suc f) prefix max_fragment p ts first rest packets ≡ some (p, packets)
unfolding fragment_loop
loop-done f prefix max_fragment p ts first rest packets h =
    let e : (length rest == 0) ≡ true = ground arith in rw e refl

-- Nothing is left to send.
pub Brings-none :
    (p : Packer) (r : Receiver) (ts : ℕ) (packets : List RtpPacket) (x : RtpPacket) (res : Packed)
    (bytes : List ℕ) (has_idr : Bool)
    → res ≡ some (next_seq p, packets ++ (x ∷ []))
    → Took r (ingest_rtp_packet r x.bytes) ts bytes has_idr
    → Waiting (ingest_rtp_packet r x.bytes) (next_seq p).seq
    → Brings p r ts packets res bytes has_idr
unfolding deliver
Brings-none p r ts packets x res bytes has_idr e t w = record {
  after = next_seq p;
  more = x ∷ [];
  result = e;
  counts = Counts-next_seq p;
  took = t;
  waits = w;
  small_seq = next_seq-small p;
}

or-false : (b : Bool) → (b || false) ≡ b
or-false true = refl
or-false false = refl

rejoin :
    (first : Bool) (header k : ℕ) (rest : List ℕ)
    → fragment_bytes first header (take k rest) ++ fragment_bytes false header (drop k rest)
      ≡ fragment_bytes first header rest
unfolding fragment_bytes
rejoin true header k rest = ap (λ z. 0 ∷ 0 ∷ 0 ∷ 1 ∷ header ∷ z) (take-append-drop k rest)
rejoin false header k rest = take-append-drop k rest

pub fragments-Brings :
    (f max_fragment : ℕ) (p : Packer) (r : Receiver) (ts header : ℕ) (first : Bool) (rest : List ℕ)
    (packets : List RtpPacket)
    → Matched p r ts
    → header < 128
    → 0 < max_fragment
    → length rest < f
    → 0 < length rest
    → Brings p r ts packets
        (fragment_loop f (fu_a_prefix header) max_fragment p ts first rest packets)
        (fragment_bytes first header rest)
        (first && (low_bits header 5 == 5))
fragments-Brings zero max_fragment p r ts header first rest packets m small pos fuel some_rest =
    absurd (omega arith)
fragments-Brings (suc zero) max_fragment p r ts header first rest packets m small pos fuel
      some_rest =
    absurd (omega arith)
fragments-Brings (suc (suc f)) max_fragment p r ts header first rest packets m small pos fuel
      some_rest =
    let k = min max_fragment (length rest) in
    let x = piece max_fragment (fu_a_prefix header) p ts first rest in
    let r' = ingest_rtp_packet r x.bytes in
    let waits =
      waits-next p r ts (leb (length rest) k)
        (fu_a_prefix header first (leb (length rest) k) ++ take k rest) m in
    let flag = first && (low_bits header 5 == 5) in
    let left = length-drop k rest in
    let t =
      fragment-process p r ts header first (leb (length rest) k) (leb (length rest) k) (take k rest)
        m small in
    rw (loop-more (suc f) (fu_a_prefix header) max_fragment p ts first rest packets some_rest)
      (elim (Bool-cases (length (drop k rest) == 0)) [
        | inl nothing ↦
            let whole : take k rest ≡ rest = take_all rest k (ground arith) in
            Brings-none p r ts packets x _ (fragment_bytes first header rest) flag
              (loop-done f (fu_a_prefix header) max_fragment (next_seq p) ts false (drop k rest)
                (packets ++ (x ∷ [])) (ground arith))
              (subst (λ z. Took r r' ts (fragment_bytes first header z) flag) whole t) waits
        | inr more ↦
            let ih =
              fragments-Brings (suc f) max_fragment (next_seq p) r' ts header false (drop k rest)
                (packets ++ (x ∷ []))
                (Matched-after p (next_seq p) r r' ts (fragment_bytes first header (take k rest))
                  flag m (Counts-next_seq p) t waits (next_seq-small p))
                small pos (omega arith) (ground arith) in
            Brings-equal p r ts packets _ _ (fragment_bytes first header rest) _ flag
              (rejoin first header k rest) (or-false flag)
              (Brings-step p r ts packets x _ _ _ flag false t ih)
      ])
