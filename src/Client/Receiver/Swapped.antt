-- ===== src/Client/Receiver/Swapped.antt =====
-- `ingestRtpPacket` of src/client/rtsp_client.cpp on two packets that arrive in the wrong order.
use rtsp_sdk.Common.{
  ℕ, ◌+◌, ◌%◌, ◌^◌, ◌<◌, ◌≤◌, ◌≡◌, ◌≢◌, refl, sym, ap, ◌∙◌, Bool, true, false, none, some, List, [],
  ◌∷◌, length, drop, ltb, le→ltb, ◌==◌, if◌then◌else◌, arith,
}
use rtsp_sdk.Common.Bytes.{read_be16}
use rtsp_sdk.Client.Receiver.{Receiver}
use rtsp_sdk.Client.Receiver.Packet.{
  put, lookup, erase, run_step, run, run_all, overflow_from, overflow, parse_rtp_timestamp,
  advance_at, advance_from, force_advance, note_arrival, ingest_rtp_packet,
}
use rtsp_sdk.Client.Receiver.Reorder.{run-none, run-some, at_head}
use rtsp_sdk.Client.Receiver.InOrder.{done, moved_on, no_overflow, no_advance, put-nil, erase-head}

-- The number after a number.
abbrev after_seq : ℕ → ℕ
after_seq s = (s + 1) % 2 ^ 16

lookup-other : (k k' : ℕ) (v : List ℕ) → k ≢ k' → lookup k ((k', v) ∷ []) ≡ none
unfolding lookup
lookup-other k k' v h = ground arith

-- The two packets in the buffer, wherever the numbers wrap.
first-there : (k k' : ℕ) (v v' : List ℕ) → k ≢ k' → lookup k (put k v ((k', v') ∷ [])) ≡ some v
unfolding lookup put
first-there k k' v v' h = ground arith

second-left :
    (k k' : ℕ) (v v' : List ℕ) → k ≢ k' → erase k (put k v ((k', v') ∷ [])) ≡ (k', v') ∷ []
unfolding erase put
second-left k k' v v' h = ground arith

two-there : (k k' : ℕ) (v v' : List ℕ) → k ≢ k' → length (put k v ((k', v') ∷ [])) ≡ 2
unfolding put
two-there k k' v v' h = ground arith

nothing_runs : (r : Receiver) → lookup r.expected_seq r.reorder_buffer ≡ none → run_all r ≡ r
unfolding run_all
nothing_runs r e = run-none (length r.reorder_buffer) r e

room_left :
    (r : Receiver) (x : List ℕ) (k : ℕ)
    → r.reorder_buffer ≡ (k, x) ∷ []
    → 1 ≤ r.jitter_buffer_packets
    → overflow r ≡ r
unfolding overflow overflow_from
room_left r x k b room =
    let fits : ltb r.jitter_buffer_packets 1 ≡ false = le→ltb r.jitter_buffer_packets 1 room in
    ap (overflow_from r) b ∙ rw fits refl

same_time :
    (r : Receiver) (x : List ℕ) (k : ℕ)
    → r.reorder_buffer ≡ (k, x) ∷ []
    → lookup r.expected_seq ((k, x) ∷ []) ≡ none
    → force_advance r (parse_rtp_timestamp x) ≡ r
unfolding force_advance advance_from
same_time r x k b missing =
    let same : (parse_rtp_timestamp x == parse_rtp_timestamp x) ≡ true = ground arith in
    ap (advance_from r (parse_rtp_timestamp x)) b
    ∙ (ap (advance_at r (parse_rtp_timestamp x) k x) missing ∙ waits r k same)
  where
    waits :
        (q : Receiver) (n : ℕ)
        → (parse_rtp_timestamp x == parse_rtp_timestamp x) ≡ true
        → advance_at q (parse_rtp_timestamp x) n x none ≡ q
    waits q n e = unfold advance_at in rw e refl

-- A packet that comes too early is kept.
early-kept :
    (r : Receiver) (x : List ℕ) (k k' : ℕ)
    → r.reorder_buffer ≡ (k', x) ∷ []
    → r.expected_seq ≡ k
    → k ≢ k'
    → 1 ≤ r.jitter_buffer_packets
    → force_advance (overflow (run_all r)) (parse_rtp_timestamp x) ≡ r
early-kept r x k k' b e h room =
    let missing : lookup r.expected_seq ((k', x) ∷ []) ≡ none =
      ap (λ z. lookup z ((k', x) ∷ [])) e ∙ lookup-other k k' x h in
    rw (nothing_runs r (ap (lookup r.expected_seq) b ∙ missing), room_left r x k' b room)
      (same_time r x k' b missing)

left_over :
    (q : Receiver) (z : List ℕ)
    → (run_step q z).reorder_buffer ≡ erase q.expected_seq q.reorder_buffer
unfolding run_step
left_over q z = refl

-- What the packet that was waited for leaves.
after-first :
    (r : Receiver) (x y : List ℕ) (k k' : ℕ)
    → k' ≡ after_seq k
    → k ≢ k'
    → r.expected_seq ≡ k
    → r.reorder_buffer ≡ put k x ((k', y) ∷ [])
    → ((run_step r x).reorder_buffer ≡ (k', y) ∷ []) × ((run_step r x).expected_seq ≡ k')
after-first r x y k k' next h e b = (
  left_over r x
      ∙ (ap (erase r.expected_seq) b
          ∙ (ap (λ z. erase z (put k x ((k', y) ∷ []))) e ∙ second-left k k' x y h)),
  moved_on r x ∙ (ap (λ z. (z + 1) % 2 ^ 16) e ∙ sym next),
)

-- The packet that was waited for and the one that was kept are handled one after the other.
both-run :
    (r : Receiver) (x y : List ℕ) (k k' : ℕ)
    → k' ≡ after_seq k
    → k ≢ k'
    → r.expected_seq ≡ k
    → r.reorder_buffer ≡ put k x ((k', y) ∷ [])
    → run_all r ≡ run_step (run_step r x) y
unfolding run_all
both-run r x y k k' next h e b =
    let found : lookup r.expected_seq r.reorder_buffer ≡ some x =
      ap (lookup r.expected_seq) b
      ∙ (ap (λ z. lookup z (put k x ((k', y) ∷ []))) e ∙ first-there k k' x y h) in
    let left = after-first r x y k k' next h e b in
    let found' : lookup (run_step r x).expected_seq (run_step r x).reorder_buffer ≡ some y =
      ap (lookup (run_step r x).expected_seq) left.0
      ∙ (ap (λ z. lookup z ((k', y) ∷ [])) left.1 ∙ at_head k' y []) in
    let size : length r.reorder_buffer ≡ 2 = ap length b ∙ two-there k k' x y h in
    ap (λ n. run n r) size
    ∙ (run-some 1 r x found
        ∙ (run-some 0 (run_step r x) y found' ∙ done (run_step (run_step r x) y)))

still_expected :
    (r : Receiver) (x : List ℕ)
    → r.reorder_initialized ≡ true
    → (note_arrival r x).expected_seq ≡ r.expected_seq
unfolding note_arrival
still_expected r x h = known r.reorder_initialized h
  where
    known :
        (b : Bool)
        → b ≡ true
        → (if b then r.expected_seq else read_be16 (drop 2 x)) ≡ r.expected_seq
    known true h' = refl
    known false h' = absurd (cc)

put_in :
    (r : Receiver) (x : List ℕ) (k : ℕ) (m : List (ℕ × List ℕ))
    → read_be16 (drop 2 x) ≡ k
    → r.reorder_buffer ≡ m
    → (note_arrival r x).reorder_buffer ≡ put k x m
unfolding note_arrival
put_in r x k m e b = ap (put (read_be16 (drop 2 x)) x) b ∙ ap (λ z. put z x m) e

initialized : (r : Receiver) (x : List ℕ) → (note_arrival r x).reorder_initialized ≡ true
unfolding note_arrival
initialized r x = refl

same_room :
    (r : Receiver) (x : List ℕ)
    → 1 ≤ r.jitter_buffer_packets
    → 1 ≤ (note_arrival r x).jitter_buffer_packets
unfolding note_arrival
same_room r x h = h

taken_out :
    (r : Receiver) (x : List ℕ) (k : ℕ)
    → r.expected_seq ≡ k
    → r.reorder_buffer ≡ (k, x) ∷ []
    → (run_step r x).reorder_buffer ≡ []
unfolding run_step
taken_out r x k e b =
    ap (erase r.expected_seq) b ∙ (ap (λ z. erase z ((k, x) ∷ [])) e ∙ erase-head k x)

-- What ingesting is where the packet is long enough.
ingest-long :
    (r : Receiver) (x : List ℕ)
    → 12 ≤ length x
    → ingest_rtp_packet r x
      ≡ force_advance (overflow (run_all (note_arrival r x))) (parse_rtp_timestamp x)
unfolding ingest_rtp_packet
ingest-long r x h = rw (le→ltb (length x) 12 h) refl

differs : (s : ℕ) → s < 2 ^ 16 → s ≢ after_seq s
differs s h same = omega arith

kept :
    (r : Receiver) (y : List ℕ) (k : ℕ)
    → r.reorder_initialized ≡ true
    → r.reorder_buffer ≡ []
    → r.expected_seq ≡ k
    → k < 2 ^ 16
    → 1 ≤ r.jitter_buffer_packets
    → 12 ≤ length y
    → read_be16 (drop 2 y) ≡ after_seq k
    → ingest_rtp_packet r y ≡ note_arrival r y
kept r y k init empty e small room long n =
    ingest-long r y long
    ∙ early-kept (note_arrival r y) y k (after_seq k)
        (put_in r y (after_seq k) [] n empty ∙ put-nil (after_seq k) y)
        (still_expected r y init ∙ e) (differs k small) (same_room r y room)

-- A receiver waits for number k with an empty reorder buffer that has room for a packet. The packet
-- with the next number comes first, then the one with number k: it is handled first, the other one
-- right after it, and the reorder buffer is empty again.
pub ingest-swapped :
    (r : Receiver) (x y : List ℕ) (k : ℕ)
    → r.reorder_initialized ≡ true
    → r.reorder_buffer ≡ []
    → r.expected_seq ≡ k
    → k < 2 ^ 16
    → 1 ≤ r.jitter_buffer_packets
    → 12 ≤ length x
    → 12 ≤ length y
    → read_be16 (drop 2 x) ≡ k
    → read_be16 (drop 2 y) ≡ (k + 1) % 2 ^ 16
    → (ingest_rtp_packet (ingest_rtp_packet r y) x
        ≡ run_step (run_step (note_arrival (note_arrival r y) x) x) y)
      × ((ingest_rtp_packet (ingest_rtp_packet r y) x).reorder_buffer ≡ [])
ingest-swapped r x y k init empty e small room long_x long_y n_x n_y =
    let a = note_arrival r y in
    let q = note_arrival a x in
    let held : a.reorder_buffer ≡ (after_seq k, y) ∷ [] =
      put_in r y (after_seq k) [] n_y empty ∙ put-nil (after_seq k) y in
    let held' = put_in a x k ((after_seq k, y) ∷ []) n_x held in
    let expected : q.expected_seq ≡ k =
      still_expected a x (initialized r y) ∙ (still_expected r y init ∙ e) in
    let left = after-first q x y k (after_seq k) refl (differs k small) expected held' in
    let ran = both-run q x y k (after_seq k) refl (differs k small) expected held' in
    let last = run_step (run_step q x) y in
    let out = taken_out (run_step q x) y (after_seq k) left.1 left.0 in
    let ingested : ingest_rtp_packet (ingest_rtp_packet r y) x ≡ last =
      ap (λ z. ingest_rtp_packet z x) (kept r y k init empty e small room long_y n_y)
      ∙ (ingest-long a x long_x
          ∙ (ap (λ z. force_advance (overflow z) (parse_rtp_timestamp x)) ran
              ∙ (ap (λ z. force_advance z (parse_rtp_timestamp x)) (no_overflow last out)
                  ∙ no_advance last (parse_rtp_timestamp x) out))) in
    (ingested, ap (λ (z : Receiver). z.reorder_buffer) ingested ∙ out)
