-- ===== src/Client/Receiver/Reorder.antt =====
-- The reorder buffer of `ingestRtpPacket`, src/client/rtsp_client.cpp.
use rtsp_sdk.Common.{
  ℕ, zero, suc, ◌+◌, ◌<◌, ◌≤◌, ◌≡◌, refl, ap, ◌∙◌, inl, inr, none, some, List, [], ◌∷◌, length,
  drop, nil_of_length, ltb, ◌==◌, Bool-cases, Option-cases, ltb→le, arith,
}
use rtsp_sdk.Common.Bytes.{read_be16}
use rtsp_sdk.Client.Receiver.{Receiver}
use rtsp_sdk.Client.Receiver.Packet.{
  put, lookup, erase, run_step, run, run_all, skip_to, overflow_from, overflow, parse_rtp_timestamp,
  count_loss, advance_at, advance_from, force_advance, note_arrival, ingest_rtp_packet,
}
use rtsp_sdk.Client.Receiver.Jitter.{Keeps, process_rtp_packet-Keeps}

length-put : (k : ℕ) (v : List ℕ) (m : List (ℕ × List ℕ)) → length (put k v m) ≤ length m + 1
unfolding put
length-put k v [] = omega arith
length-put k v ((k', v') ∷ m) = ground (arith, length-put k v m)

length-erase :
    (k : ℕ) (m : List (ℕ × List ℕ)) (v : List ℕ)
    → lookup k m ≡ some v
    → length (erase k m) + 1 ≡ length m
unfolding lookup erase
length-erase k [] v h = absurd (cc)
length-erase k ((k', v') ∷ m) v h = ground (arith, length-erase k m v)

-- Nothing that could be handled is waiting.
abbrev pub Settled : Receiver → Type 0
Settled r = lookup r.expected_seq r.reorder_buffer ≡ none

-- What a run of the buffer leaves.
record Ran (r r' : Receiver) : Type 0 where
  settled : Settled r'
  shorter : length r'.reorder_buffer ≤ length r.reorder_buffer
  keeps : Keeps r r'

lookup-nil : (k : ℕ) → lookup k [] ≡ none
unfolding lookup
lookup-nil k = refl

pub run-none : (f : ℕ) (r : Receiver) → Settled r → run f r ≡ r
unfolding run
run-none zero r e = refl
run-none (suc f) r e = rw (e, run) refl

pub run-some :
    (f : ℕ) (r : Receiver) (packet : List ℕ)
    → lookup r.expected_seq r.reorder_buffer ≡ some packet
    → run (suc f) r ≡ run f (run_step r packet)
unfolding run
run-some f r packet e = rw (e, run) refl

run_step-Keeps : (r : Receiver) (packet : List ℕ) → Keeps r (run_step r packet)
unfolding run_step
run_step-Keeps r packet = process_rtp_packet-Keeps r packet

run_step-shorter :
    (r : Receiver) (packet : List ℕ)
    → lookup r.expected_seq r.reorder_buffer ≡ some packet
    → length (run_step r packet).reorder_buffer + 1 ≡ length r.reorder_buffer
unfolding run_step
run_step-shorter r packet e = length-erase r.expected_seq r.reorder_buffer packet e

run-Ran : (f : ℕ) (r : Receiver) → length r.reorder_buffer ≤ f → Ran r (run f r)
run-Ran zero r h =
    let e : Settled r =
      ap (lookup r.expected_seq) (nil_of_length r.reorder_buffer (omega arith))
      ∙ lookup-nil r.expected_seq in
    rw (run-none zero r e) (record { settled = e; shorter = omega arith; keeps = refl })
run-Ran (suc f) r h = elim (Option-cases (lookup r.expected_seq r.reorder_buffer)) [
  | inl e ↦ rw (run-none (suc f) r e) (record { settled = e; shorter = omega arith; keeps = refl })
  | inr (packet, e) ↦
      let less = run_step-shorter r packet e in
      let ih = run-Ran f (run_step r packet) (omega arith) in
      let ih_shorter = ih.shorter in
      rw (run-some f r packet e) (record {
        settled = ih.settled;
        shorter = omega arith;
        keeps = ih.keeps ∙ run_step-Keeps r packet;
      })
]

run_all-Ran : (r : Receiver) → Ran r (run_all r)
unfolding run_all
run_all-Ran r = run-Ran (length r.reorder_buffer) r (omega arith)

-- Skipping to a packet that is there takes it out at least.
run-less :
    (f : ℕ) (r : Receiver) (packet : List ℕ)
    → length r.reorder_buffer ≤ suc f
    → lookup r.expected_seq r.reorder_buffer ≡ some packet
    → length (run (suc f) r).reorder_buffer < length r.reorder_buffer
run-less f r packet h e =
    let less = run_step-shorter r packet e in
    let ran = run-Ran f (run_step r packet) (omega arith) in
    let shorter = ran.shorter in rw (run-some f r packet e) (omega arith)

pub at_head : (k : ℕ) (v : List ℕ) (m : List (ℕ × List ℕ)) → lookup k ((k, v) ∷ m) ≡ some v
unfolding lookup
at_head k v m = ground arith

skip_to-Ran : (r : Receiver) (k : ℕ) → Ran r (skip_to r k)
unfolding skip_to
skip_to-Ran r k =
    let h = run_all-Ran (record r { expected_seq = k }) in
    record { settled = h.settled; shorter = h.shorter; keeps = h.keeps }

skip_to-less :
    (r : Receiver) (k : ℕ) (v : List ℕ) (m : List (ℕ × List ℕ))
    → r.reorder_buffer ≡ (k, v) ∷ m
    → length (skip_to r k).reorder_buffer < length r.reorder_buffer
unfolding skip_to run_all
skip_to-less r k v m e =
    let size : length r.reorder_buffer ≡ suc (length m) = ap length e in
    rw size (
      omega (
        arith,
        run-less (length m) (record r { expected_seq = k }) v (omega arith)
            (ap (lookup k) e ∙ at_head k v m),
      ))

-- The buffer is not over its size, and nothing that could be handled is waiting.
pub record Tidy (r : Receiver) : Type 0 where
  pub settled : Settled r
  pub bounded : length r.reorder_buffer ≤ r.jitter_buffer_packets

overflow-Tidy :
    (r : Receiver) (b : List (ℕ × List ℕ))
    → r.reorder_buffer ≡ b
    → Settled r
    → length r.reorder_buffer ≤ r.jitter_buffer_packets + 1
    → Tidy (overflow_from r b)
unfolding overflow_from
overflow-Tidy r [] e s h = record { settled = s; bounded = omega (arith, ap length e) }
overflow-Tidy r ((k, v) ∷ m) e s h =
    let size = ap length e in
    elim (Bool-cases (ltb r.jitter_buffer_packets (length ((k, v) ∷ m)))) [
      | inl over ↦
          let ran = skip_to-Ran r k in
          let less = skip_to-less r k v m e in
          let keeps = ran.keeps in rw over (record { settled = ran.settled; bounded = omega arith })
      | inr fits ↦
          let small = ltb→le r.jitter_buffer_packets (length ((k, v) ∷ m)) fits in
          rw fits (record { settled = s; bounded = omega arith })
    ]

count_loss-Ran : (r : Receiver) (k : ℕ) → Tidy r → Tidy (skip_to (count_loss r k) k)
unfolding count_loss
count_loss-Ran r k t =
    let ran = skip_to-Ran (count_loss r k) k in
    let shorter = ran.shorter in
    let keeps = ran.keeps in
    let bounded = t.bounded in record { settled = ran.settled; bounded = omega arith }

advance-Tidy : (r : Receiver) (ts : ℕ) (b : List (ℕ × List ℕ)) → Tidy r → Tidy (advance_from r ts b)
unfolding advance_from advance_at
advance-Tidy r ts [] t = t
advance-Tidy r ts ((k, v) ∷ m) t = elim (Option-cases (lookup r.expected_seq ((k, v) ∷ m))) [
  | inr (packet, e) ↦ rw (e, advance_at) t
  | inl e ↦ elim (Bool-cases (ts == parse_rtp_timestamp v)) [
    | inl same ↦ rw (e, advance_at, same) t
    | inr other ↦ rw (e, advance_at, other) (count_loss-Ran r k t)
  ]
]

arrival-size :
    (r : Receiver) (packet : List ℕ)
    → length (note_arrival r packet).reorder_buffer ≤ length r.reorder_buffer + 1
unfolding note_arrival
arrival-size r packet = length-put (read_be16 (drop 2 packet)) packet r.reorder_buffer

arrival-Keeps : (r : Receiver) (packet : List ℕ) → Keeps r (note_arrival r packet)
unfolding note_arrival
arrival-Keeps r packet = refl

-- Whatever packet comes, the reorder buffer of a tidy receiver is tidy afterwards: the loops have
-- ended with nothing left that could be handled, and no more packets are kept than were set.
pub ingest_rtp_packet-Tidy :
    (r : Receiver) (packet : List ℕ) → Tidy r → Tidy (ingest_rtp_packet r packet)
unfolding ingest_rtp_packet force_advance overflow
ingest_rtp_packet-Tidy r packet t = elim (Bool-cases (ltb (length packet) 12)) [
  | inl short ↦ rw short t
  | inr long ↦
      let arrived = note_arrival r packet in
      let ran = run_all-Ran arrived in
      let shorter = ran.shorter in
      let keeps = ran.keeps in
      let kept = arrival-Keeps r packet in
      let bounded = t.bounded in
      let tidy =
        overflow-Tidy (run_all arrived) (run_all arrived).reorder_buffer refl ran.settled
          (omega (arith, arrival-size r packet)) in
      rw long (
        advance-Tidy (overflow (run_all arrived)) (parse_rtp_timestamp packet)
          (overflow (run_all arrived)).reorder_buffer tidy)
]
