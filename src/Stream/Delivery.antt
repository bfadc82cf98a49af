-- ===== src/Stream/Delivery.antt =====
-- The packets of a frame, src/rtsp-common/rtp_packer.cpp, one after the other in `ingestRtpPacket`
-- of src/client/rtsp_client.cpp.
use rtsp_sdk.Common.{
  false, arith, subst, ℕ, ◌^◌, ◌<◌, ◌≤◌, ◌≡◌, refl, ◌∙◌, Bool, ◌&&◌, ◌||◌, some, List, [], ◌∷◌,
  ◌++◌, append_assoc, length, ◌==◌,
}
use rtsp_sdk.Common.Bits.{low_bits}
use rtsp_sdk.Common.Bytes.{at, be16, read_be16}
use rtsp_sdk.Rtp.Frame.{RtpPacket}
use rtsp_sdk.Rtp.Packer.{Packer, Packed, next_seq, make_packet, fu_a_prefix}
use rtsp_sdk.Client.Receiver.{Receiver}
use rtsp_sdk.Client.Receiver.Packet.{process_rtp_packet, note_arrival, run_step, ingest_rtp_packet}
use rtsp_sdk.Client.Receiver.Payload.{process_video_payload}
use rtsp_sdk.Client.Receiver.InOrder.{Waiting, ingest-run_step, Waiting-ingest}
use rtsp_sdk.Stream.Wire.{noted, wire_seq, twelve, process-make_packet}
use rtsp_sdk.Stream.Took.{
  Ready, Took, Ready-Took, Took-trans, Took-single, fragment_bytes, Took-fragment,
}

-- The packets arrive in order.
unfoldable pub deliver : Receiver → List RtpPacket → Receiver
deliver r [] = r
deliver r (x ∷ packets) = deliver (ingest_rtp_packet r x.bytes) packets

pub deliver-append :
    (r : Receiver) (xs ys : List RtpPacket) → deliver r (xs ++ ys) ≡ deliver (deliver r xs) ys
unfolding deliver
deliver-append r [] ys = refl
deliver-append r (x ∷ xs) ys = deliver-append (ingest_rtp_packet r x.bytes) xs ys

-- Only the sequence number of the packer moves.
pub record Counts (p p' : Packer) : Type 0 where
  pub payload_type : p'.payload_type ≡ p.payload_type
  pub mtu : p'.mtu ≡ p.mtu
  pub ssrc : p'.ssrc ≡ p.ssrc
  pub clock_rate : p'.clock_rate ≡ p.clock_rate

pub Counts-trans : (p p' p'' : Packer) → Counts p p' → Counts p' p'' → Counts p p''
Counts-trans p p' p'' a b = record {
  payload_type = b.payload_type ∙ a.payload_type;
  mtu = b.mtu ∙ a.mtu;
  ssrc = b.ssrc ∙ a.ssrc;
  clock_rate = b.clock_rate ∙ a.clock_rate;
}

pub Counts-next_seq : (p : Packer) → Counts p (next_seq p)
unfolding next_seq
Counts-next_seq p = record { payload_type = refl; mtu = refl; ssrc = refl; clock_rate = refl }

-- The packer gives a result: the packets so far, and more, which bring the receiver the bytes.
pub record Brings (p : Packer) (r : Receiver) (ts : ℕ) (packets : List RtpPacket) (res : Packed)
    (bytes : List ℕ) (has_idr : Bool) : Type 0 where
  pub after : Packer
  pub more : List RtpPacket
  pub result : res ≡ some (after, packets ++ more)
  pub counts : Counts p after
  pub took : Took r (deliver r more) ts bytes has_idr
  pub waits : Waiting (deliver r more) after.seq
  pub small_seq : after.seq < 2 ^ 16

-- The conditions on packer and receiver that a frame needs.
pub record Matched (p : Packer) (r : Receiver) (ts : ℕ) : Type 0 where
  pub small_type : p.payload_type < 128
  pub small_seq : p.seq < 2 ^ 16
  pub waiting : Waiting r p.seq
  pub small_ts : ts < 2 ^ 32
  pub ready : Ready r ts p.payload_type

pub Matched-after :
    (p p' : Packer) (r r' : Receiver) (ts : ℕ) (bytes : List ℕ) (has_idr : Bool)
    → Matched p r ts
    → Counts p p'
    → Took r r' ts bytes has_idr
    → Waiting r' p'.seq
    → p'.seq < 2 ^ 16
    → Matched p' r' ts
Matched-after p p' r r' ts bytes has_idr m c t w small = record {
  small_type = rw (c.payload_type) (m.small_type);
  small_seq = small;
  waiting = w;
  small_ts = m.small_ts;
  ready = rw (c.payload_type) (Ready-Took r r' ts p.payload_type bytes has_idr m.ready t);
}

Ready-arrival :
    (r : Receiver) (x : List ℕ) (ts payload_type : ℕ)
    → Ready r ts payload_type
    → Ready (note_arrival r x) ts payload_type
unfolding note_arrival
Ready-arrival r x ts payload_type h = record {
  codec = h.codec;
  payload = h.payload;
  joins = h.joins;
}

-- What the handling of a packet does to the frame, `ingestRtpPacket` does.
Took-run_step :
    (r : Receiver) (x : List ℕ) (ts : ℕ) (bytes : List ℕ) (has_idr : Bool)
    → Took (note_arrival r x) (process_rtp_packet (note_arrival r x) x) ts bytes has_idr
    → Took r (run_step (note_arrival r x) x) ts bytes has_idr
unfolding note_arrival run_step
Took-run_step r x ts bytes has_idr t = record {
  codec = t.codec;
  payload = t.payload;
  open_frame = t.open_frame;
  time = t.time;
  buffer = t.buffer;
  idr_flag = t.idr_flag;
  frames = t.frames;
  output = t.output;
  called = t.called;
  wide = t.wide;
  high = t.high;
  rate = t.rate;
}

-- A payload that is taken comes in a packet of the packer.
Took-ingest :
    (p : Packer) (r : Receiver) (ts : ℕ) (marker : Bool) (body bytes : List ℕ) (has_idr : Bool)
    → Matched p r ts
    → ((q : Receiver)
        → Ready q ts p.payload_type
        → Took q
            (process_video_payload (noted q (read_be16 (be16 p.seq))) body ts false p.payload_type)
            ts
            bytes
            has_idr)
    → Took r (ingest_rtp_packet r (make_packet p ts marker body).bytes) ts bytes has_idr
Took-ingest p r ts marker body bytes has_idr m taken =
    let x = (make_packet p ts marker body).bytes in
    let ready = Ready-arrival r x ts p.payload_type m.ready in
    rw
      (ingest-run_step r x p.seq m.waiting (twelve p ts marker body)
        (wire_seq p ts marker body m.small_seq))
      (Took-run_step r x ts bytes has_idr (
        rw
          (process-make_packet p (note_arrival r x) ts marker body m.small_type m.small_ts
            ready.codec)
          (taken (note_arrival r x) ready)))

pub waits-next :
    (p : Packer) (r : Receiver) (ts : ℕ) (marker : Bool) (body : List ℕ)
    → Matched p r ts
    → Waiting (ingest_rtp_packet r (make_packet p ts marker body).bytes) (next_seq p).seq
unfolding next_seq
waits-next p r ts marker body m =
    Waiting-ingest r (make_packet p ts marker body).bytes p.seq m.waiting (twelve p ts marker body)
      (wire_seq p ts marker body m.small_seq)

pub next_seq-small : (p : Packer) → (next_seq p).seq < 2 ^ 16
unfolding next_seq
next_seq-small p = omega arith

pub fragment-process :
    (p : Packer) (r : Receiver) (ts header : ℕ) (first last marker : Bool) (k : List ℕ)
    → Matched p r ts
    → header < 128
    → Took r
        (ingest_rtp_packet r (make_packet p ts marker (fu_a_prefix header first last ++ k)).bytes)
        ts
        (fragment_bytes first header k)
        (first && (low_bits header 5 == 5))
fragment-process p r ts header first last marker k m small =
    Took-ingest p r ts marker (fu_a_prefix header first last ++ k) _ _ m (λ q ready.
      Took-fragment q header first last k (read_be16 (be16 p.seq)) ts p.payload_type ready small)

pub single-process :
    (p : Packer) (r : Receiver) (ts : ℕ) (marker : Bool) (u : List ℕ)
    → Matched p r ts
    → 0 < length u
    → 1 ≤ low_bits (at u 0) 5
    → low_bits (at u 0) 5 ≤ 23
    → Took r
        (ingest_rtp_packet r (make_packet p ts marker u).bytes)
        ts
        (0 ∷ 0 ∷ 0 ∷ 1 ∷ u)
        (low_bits (at u 0) 5 == 5)
single-process p r ts marker u m some_bytes low high = Took-ingest p r ts marker u _ _ m (λ q ready.
    Took-single q u (read_be16 (be16 p.seq)) ts p.payload_type ready some_bytes low high)

-- One packet in front of what the rest brings.
pub Brings-step :
    (p : Packer) (r : Receiver) (ts : ℕ) (packets : List RtpPacket) (x : RtpPacket) (res : Packed)
    (xs ys : List ℕ) (a b : Bool)
    → Took r (ingest_rtp_packet r x.bytes) ts xs a
    → Brings (next_seq p) (ingest_rtp_packet r x.bytes) ts (packets ++ (x ∷ [])) res ys b
    → Brings p r ts packets res (xs ++ ys) (a || b)
unfolding deliver
Brings-step p r ts packets x res xs ys a b t br = record {
  after = br.after;
  more = x ∷ br.more;
  result = br.result ∙ rw (append_assoc packets (x ∷ []) br.more) refl;
  counts = Counts-trans p (next_seq p) br.after (Counts-next_seq p) br.counts;
  took = Took-trans r (ingest_rtp_packet r x.bytes) _ ts xs ys a b t br.took;
  waits = br.waits;
  small_seq = br.small_seq;
}

pub Brings-equal :
    (p : Packer) (r : Receiver) (ts : ℕ) (packets : List RtpPacket) (res : Packed) (xs ys : List ℕ)
    (a b : Bool)
    → xs ≡ ys
    → a ≡ b
    → Brings p r ts packets res xs a
    → Brings p r ts packets res ys b
Brings-equal p r ts packets res xs ys a b e e' h = record {
  after = h.after;
  more = h.more;
  result = h.result;
  counts = h.counts;
  waits = h.waits;
  small_seq = h.small_seq;
  took =
      subst (λ z. Took r (deliver r h.more) ts z b) e
        (subst (Took r (deliver r h.more) ts xs) e' h.took);
}

-- A result that begins where another ended.
pub Brings-trans :
    (p : Packer) (r : Receiver) (ts : ℕ) (packets : List RtpPacket) (res res' : Packed)
    (xs ys : List ℕ) (a b : Bool)
    → (h : Brings p r ts packets res xs a)
    → Brings h.after (deliver r h.more) ts (packets ++ h.more) res' ys b
    → Brings p r ts packets res' (xs ++ ys) (a || b)
Brings-trans p r ts packets res res' xs ys a b h h' = record {
  after = h'.after;
  waits = rw (deliver-append r h.more h'.more) (h'.waits);
  small_seq = h'.small_seq;
  more = h.more ++ h'.more;
  result = h'.result ∙ rw (append_assoc packets h.more h'.more) refl;
  counts = Counts-trans p h.after h'.after h.counts h'.counts;
  took = rw (deliver-append r h.more h'.more) (
      Took-trans r (deliver r h.more) (deliver (deliver r h.more) h'.more) ts xs ys a b h.took
        h'.took);
}
