-- ===== src/Client/Receiver/InOrder.antt =====
-- `ingestRtpPacket` of src/client/rtsp_client.cpp on the packet that it waits for.
use rtsp_sdk.Common.{
  ℕ, ◌+◌, ◌%◌, ◌^◌, ◌≤◌, ◌≡◌, refl, ap, ◌∙◌, ◌⊎◌, inl, inr, Bool, true, false, some, List, [], ◌∷◌,
  length, drop, le→ltb, if◌then◌else◌, arith,
}
use rtsp_sdk.Common.Bytes.{read_be16}
use rtsp_sdk.Client.Receiver.{Receiver}
use rtsp_sdk.Client.Receiver.Packet.{
  put, lookup, erase, run_step, run, run_all, overflow_from, overflow, parse_rtp_timestamp,
  advance_from, force_advance, note_arrival, ingest_rtp_packet,
}
use rtsp_sdk.Client.Receiver.Reorder.{run-some, at_head}

-- The reorder buffer is empty, and `seq` is the next packet, or the first.
pub record Waiting (r : Receiver) (seq : ℕ) : Type 0 where
  pub empty : r.reorder_buffer ≡ []
  pub next : (r.reorder_initialized ≡ false) ⊎ (r.expected_seq ≡ seq)

pub put-nil : (k : ℕ) (v : List ℕ) → put k v [] ≡ (k, v) ∷ []
unfolding put
put-nil k v = refl

pub erase-head : (k : ℕ) (v : List ℕ) → erase k ((k, v) ∷ []) ≡ []
unfolding erase
erase-head k v = ground arith

expects :
    (r : Receiver) (x : List ℕ) (seq : ℕ)
    → Waiting r seq
    → read_be16 (drop 2 x) ≡ seq
    → (note_arrival r x).expected_seq ≡ seq
unfolding note_arrival
expects r x seq w e = elim w.next [
  | inl fresh ↦ rw fresh e
  | inr known ↦ either r.reorder_initialized known e
]
  where
    either :
        (b : Bool)
        → r.expected_seq ≡ seq
        → read_be16 (drop 2 x) ≡ seq
        → (if b then r.expected_seq else read_be16 (drop 2 x)) ≡ seq
    either true h h' = h
    either false h h' = h'

holds :
    (r : Receiver) (x : List ℕ) (seq : ℕ)
    → Waiting r seq
    → read_be16 (drop 2 x) ≡ seq
    → (note_arrival r x).reorder_buffer ≡ (seq, x) ∷ []
unfolding note_arrival
holds r x seq w e =
    ap (put (read_be16 (drop 2 x)) x) w.empty
    ∙ (put-nil (read_be16 (drop 2 x)) x ∙ ap (λ (k : ℕ). (k, x) ∷ []) e)

pub done : (r : Receiver) → run 0 r ≡ r
unfolding run
done r = refl

runs-once :
    (r : Receiver) (x : List ℕ) (seq : ℕ)
    → r.expected_seq ≡ seq
    → r.reorder_buffer ≡ (seq, x) ∷ []
    → run_all r ≡ run_step r x
unfolding run_all
runs-once r x seq e b =
    let found : lookup r.expected_seq r.reorder_buffer ≡ some x =
      ap (lookup r.expected_seq) b ∙ (ap (λ k. lookup k ((seq, x) ∷ [])) e ∙ at_head seq x []) in
    let size : length r.reorder_buffer ≡ 1 = ap length b in
    ap (λ n. run n r) size ∙ (run-some 0 r x found ∙ done (run_step r x))

emptied :
    (r : Receiver) (x : List ℕ) (seq : ℕ)
    → r.expected_seq ≡ seq
    → r.reorder_buffer ≡ (seq, x) ∷ []
    → (run_step r x).reorder_buffer ≡ []
unfolding run_step
emptied r x seq e b =
    ap (erase r.expected_seq) b ∙ (ap (λ k. erase k ((seq, x) ∷ [])) e ∙ erase-head seq x)

pub no_overflow : (r : Receiver) → r.reorder_buffer ≡ [] → overflow r ≡ r
unfolding overflow overflow_from
no_overflow r e = ap (overflow_from r) e

pub no_advance : (r : Receiver) (ts : ℕ) → r.reorder_buffer ≡ [] → force_advance r ts ≡ r
unfolding force_advance advance_from
no_advance r ts e = ap (advance_from r ts) e

-- The packet is handled at once.
pub ingest-run_step :
    (r : Receiver) (x : List ℕ) (seq : ℕ)
    → Waiting r seq
    → 12 ≤ length x
    → read_be16 (drop 2 x) ≡ seq
    → ingest_rtp_packet r x ≡ run_step (note_arrival r x) x
unfolding ingest_rtp_packet
ingest-run_step r x seq w long e =
    let expected = expects r x seq w e in
    let held = holds r x seq w e in
    let out = emptied (note_arrival r x) x seq expected held in
    rw
      (
        le→ltb (length x) 12 long,
        runs-once (note_arrival r x) x seq expected held,
        no_overflow (run_step (note_arrival r x) x) out,
        no_advance (run_step (note_arrival r x) x) (parse_rtp_timestamp x) out,
      )
      refl

pub moved_on :
    (r : Receiver) (x : List ℕ) → (run_step r x).expected_seq ≡ (r.expected_seq + 1) % 2 ^ 16
unfolding run_step
moved_on r x = refl

-- And the next one is waited for.
pub Waiting-ingest :
    (r : Receiver) (x : List ℕ) (seq : ℕ)
    → Waiting r seq
    → 12 ≤ length x
    → read_be16 (drop 2 x) ≡ seq
    → Waiting (ingest_rtp_packet r x) ((seq + 1) % 2 ^ 16)
Waiting-ingest r x seq w long e =
    let expected = expects r x seq w e in
    let held = holds r x seq w e in
    rw (ingest-run_step r x seq w long e) (record {
      empty = emptied (note_arrival r x) x seq expected held;
      next = inr (moved_on (note_arrival r x) x ∙ ap (λ k. (k + 1) % 2 ^ 16) expected);
    })
