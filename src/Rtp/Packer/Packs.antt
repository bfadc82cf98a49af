-- ===== src/Rtp/Packer/Packs.antt =====
-- What the functions of src/rtsp-common/rtp_packer.cpp that append packets keep to.
use rtsp_sdk.Common.{
  ℕ, zero, suc, ◌+◌, ◌%◌, ◌^◌, ◌<◌, ◌≤◌, ◌≡◌, refl, sym, ◌∙◌, subst, inl, inr, Bool, false, some,
  List, [], ◌∷◌, ◌++◌, append-nil, append_assoc, length, take, drop, length-drop, length-take, All,
  All-append, min, leb, ◌==◌, Bool-cases, arith,
}
use rtsp_sdk.Common.Bytes.{lengths, be16, be32}
use rtsp_sdk.Rtp.Frame.{RtpPacket}
use rtsp_sdk.Rtp.Packer.{Packer, Packed, next_seq, rtp_header, make_packet, fragment_loop}

-- A packet is no longer than its header and the MTU.
abbrev pub Fits : ℕ → RtpPacket → Type 0
Fits mtu x = length x.bytes ≤ 12 + mtu

-- The packets are numbered from `s` on, modulo 2 ^ 16; `e` is the next number.
abbrev pub Numbered : ℕ → List RtpPacket → ℕ → Type 0
Numbered s [] e = s ≡ e
Numbered s (x ∷ packets) e = (x.seq ≡ s) × Numbered ((s + 1) % 2 ^ 16) packets e

Numbered-append :
    (s m e : ℕ) (xs ys : List RtpPacket)
    → Numbered s xs m
    → Numbered m ys e
    → Numbered s (xs ++ ys) e
Numbered-append s m e [] ys hx hy = subst (λ z. Numbered z ys e) (sym hx) hy
Numbered-append s m e (x ∷ xs) ys hx hy =
    (hx.0, Numbered-append ((s + 1) % 2 ^ 16) m e xs ys hx.1 hy)

-- A result: to the packets so far come some that fit and are numbered on.
pub record Packs (p : Packer) (packets : List RtpPacket) (res : Packed) : Type 0 where
  pub after : Packer
  pub more : List RtpPacket
  pub result : res ≡ some (after, packets ++ more)
  pub mtu : after.mtu ≡ p.mtu
  pub fits : All (Fits p.mtu) more
  pub numbered : Numbered p.seq more after.seq

pub Packs-none : (p : Packer) (packets : List RtpPacket) → Packs p packets (some (p, packets))
Packs-none p packets = record {
  after = p;
  more = [];
  result = rw (append-nil packets) refl;
  mtu = refl;
  fits = tt;
  numbered = refl;
}

length-make_packet :
    (p : Packer) (ts : ℕ) (marker : Bool) (body : List ℕ)
    → length (make_packet p ts marker body).bytes ≡ 12 + length body
unfolding make_packet rtp_header be16 be32
length-make_packet p ts marker body = omega lengths

-- One packet in front.
pub Packs-packet :
    (p : Packer) (packets : List RtpPacket) (res : Packed) (ts : ℕ) (marker : Bool) (body : List ℕ)
    → length body ≤ p.mtu
    → Packs (next_seq p) (packets ++ (make_packet p ts marker body ∷ [])) res
    → Packs p packets res
unfolding next_seq
Packs-packet p packets res ts marker body short h = record {
  after = h.after;
  more = make_packet p ts marker body ∷ h.more;
  result = h.result ∙ rw (append_assoc packets (make_packet p ts marker body ∷ []) h.more) refl;
  mtu = h.mtu;
  fits = (omega (arith, length-make_packet p ts marker body), h.fits);
  numbered = (seq-make_packet, h.numbered);
}
  where
    seq-make_packet : (make_packet p ts marker body).seq ≡ p.seq
    seq-make_packet = unfold make_packet in refl

pub Packs-trans :
    (p : Packer) (packets : List RtpPacket) (res res' : Packed) (h : Packs p packets res)
    → Packs h.after (packets ++ h.more) res'
    → Packs p packets res'
Packs-trans p packets res res' h h' = record {
  after = h'.after;
  more = h.more ++ h'.more;
  result = h'.result ∙ rw (append_assoc packets h.more h'.more) refl;
  mtu = h'.mtu ∙ h.mtu;
  fits =
      All-append (Fits p.mtu) h.more h'.more h.fits
        (subst (λ z. All (Fits z) h'.more) h.mtu h'.fits);
  numbered = Numbered-append p.seq h.after.seq h'.after.seq h.more h'.more h.numbered h'.numbered;
}

-- The fragments of a payload, behind prefixes of `n` bytes.
pub fragments-Packs :
    (f n max_fragment : ℕ) (prefix : Bool → Bool → List ℕ) (p : Packer) (ts : ℕ) (first : Bool)
    (rest : List ℕ) (packets : List RtpPacket)
    → ((a b : Bool) → length (prefix a b) ≡ n)
    → 0 < max_fragment
    → n + max_fragment ≤ p.mtu
    → length rest < f
    → Packs p packets (fragment_loop f prefix max_fragment p ts first rest packets)
unfolding fragment_loop
fragments-Packs zero n max_fragment prefix p ts first rest packets len pos room fuel =
    absurd (omega arith)
fragments-Packs (suc f) n max_fragment prefix p ts first rest packets len pos room fuel =
    let k = min max_fragment (length rest) in
    let last = leb (length rest) k in
    let body = prefix first last ++ take k rest in
    elim (Bool-cases (length rest == 0)) [
      | inl nothing ↦ rw nothing (Packs-none p packets)
      | inr some_rest ↦
          let left = length-drop k rest in
          let ih =
            fragments-Packs f n max_fragment prefix (next_seq p) ts false (drop k rest)
              (packets ++ (make_packet p ts last body ∷ [])) len pos (unfold next_seq in room)
              (ground arith) in
          rw some_rest (
            Packs-packet p packets _ ts last body
              (omega (lengths, len first last, length-take k rest)) ih)
    ]
