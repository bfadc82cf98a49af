-- ===== src/Client/Receiver/Jitter.antt =====
-- `processRtpPacket` of src/client/rtsp_client.cpp leaves the size of the reorder buffer as it was set.
use rtsp_sdk.Common.{
  ℕ, zero, suc, ◌+◌, ◌%◌, ◌^◌, ◌≡◌, refl, ◌∙◌, Bool, true, false, not, ◌&&◌, ◌||◌, Option, none,
  some, List, [], ◌∷◌, length, take, drop, ltb, leb, ◌==◌, if◌then◌else◌,
}
use rtsp_sdk.Common.Bits.{low_bits, bit_set, shr}
use rtsp_sdk.Common.Bytes.{at, read_be16, read_be32}
use rtsp_sdk.Client.Receiver.{
  Receiver, is_h265, is_h265_irap, append_annex_b_nalu, note_idr, clear_current_frame_state,
  emit_frame,
}
use rtsp_sdk.Client.Receiver.Payload.{
  Handled, aggregated, h264_idr, h265_idr, fu_a_start, fu_bytes, reconstructed_nal, h264_payload,
  fu_start, fu_rest, h265_fragment, h265_payload, drop_frame, close_frame, begin_frame, turn_frame,
  after_payload, handle_payload, process_video_payload,
}
use rtsp_sdk.Client.Receiver.Packet.{
  lose_fragments, note_seq, rtp_payload, handle_packet, process_rtp_packet,
}

abbrev pub Keeps : Receiver → Receiver → Type 0
Keeps r r' = r'.jitter_buffer_packets ≡ r.jitter_buffer_packets

either :
    (r : Receiver) (b : Bool) (x y : Receiver)
    → Keeps r x
    → Keeps r y
    → Keeps r (if b then x else y)
either r true x y hx hy = hx
either r false x y hx hy = hy

either_handled :
    (r : Receiver) (b : Bool) (x y : Handled)
    → Keeps r x.0
    → Keeps r y.0
    → Keeps r (if b then x else y).0
either_handled r true x y hx hy = hx
either_handled r false x y hx hy = hy

add-Keeps :
    (r : Receiver) (nalu : List ℕ) (b : Bool) → Keeps r (note_idr b (append_annex_b_nalu r nalu))
unfolding note_idr append_annex_b_nalu
add-Keeps r [] b = refl
add-Keeps r (x ∷ nalu) b = refl

aggregated-Keeps :
    (f : ℕ) (is_idr : ℕ → Bool) (rest : List ℕ) (r : Receiver)
    → Keeps r (aggregated f is_idr rest r)
unfolding aggregated
aggregated-Keeps zero is_idr rest r = refl
aggregated-Keeps (suc f) is_idr rest r =
    let n = read_be16 rest in
    let nalu = take n (drop 2 rest) in
    let ih =
      aggregated-Keeps f is_idr (drop n (drop 2 rest))
        (note_idr (is_idr (at nalu 0)) (append_annex_b_nalu r nalu))
      ∙ add-Keeps r nalu (is_idr (at nalu 0)) in
    either r (leb 2 (length rest)) _ _
      (either r (n == 0 || ltb (length (drop 2 rest)) n) _ _ refl ih) refl

fu_a-Keeps :
    (r : Receiver) (b : Bool) (nal : ℕ) (k : List ℕ)
    → Keeps r (fu_bytes (if b then fu_a_start r nal else r) k)
unfolding fu_bytes fu_a_start note_idr
fu_a-Keeps r true nal k = refl
fu_a-Keeps r false nal k = refl

h264-Keeps : (r : Receiver) (q : List ℕ) → Keeps r (h264_payload r q).0
unfolding h264_payload
h264-Keeps r q =
    let t = low_bits (at q 0) 5 in
    either_handled r (leb 1 t && leb t 23) _ _ (add-Keeps r q (t == 5)) (
      either_handled r (t == 24) _ _ (aggregated-Keeps (length q) h264_idr (drop 1 q) r) (
        either_handled r (t == 25) _ _
          (either_handled r (ltb (length q) 3) _ _ refl
            (aggregated-Keeps (length q) h264_idr (drop 3 q) r))
          (either_handled r (t == 28 && leb 2 (length q)) _ _
            (fu_a-Keeps r (bit_set (at q 1) 7) (reconstructed_nal (at q 0) (at q 1)) (drop 2 q))
            refl)))

fragment-Keeps : (r : Receiver) (q : List ℕ) → Keeps r (h265_fragment r q).0
unfolding h265_fragment fu_start fu_rest note_idr
fragment-Keeps r q =
    either_handled r (bit_set (at q 2) 7) _ _ refl
      (either_handled r (r.h265_fu_drop_mode || not r.h265_fu_in_progress) _ _ refl refl)

h265-Keeps : (r : Receiver) (q : List ℕ) → Keeps r (h265_payload r q).0
unfolding h265_payload
h265-Keeps r q =
    let t = low_bits (shr (at q 0) 1) 6 in
    either_handled r (ltb (length q) 2) _ _ refl (
      either_handled r (not (t == 49) && (not (t == 48) && not (t == 50))) _ _
        (add-Keeps r q (is_h265_irap t))
        (either_handled r (t == 48) _ _ (aggregated-Keeps (length q) h265_idr (drop 2 q) r)
          (either_handled r (t == 49 && leb 3 (length q)) _ _ (fragment-Keeps r q) refl)))

handle-Keeps :
    (r : Receiver) (q : List ℕ) (payload_type : ℕ) → Keeps r (handle_payload r q payload_type).0
unfolding handle_payload
handle-Keeps r q payload_type =
    either_handled r (payload_type == r.payload_type && not (is_h265 r.codec)) _ _ (h264-Keeps r q)
      (h265-Keeps r q)

close-Keeps : (r : Receiver) (ts : ℕ) → Keeps r (close_frame r ts)
unfolding close_frame drop_frame clear_current_frame_state emit_frame
close-Keeps r ts =
    either r (is_h265 r.codec && r.h265_fu_drop_mode) _ _ refl
      (either r (length r.frame_buffer == 0) _ _ refl refl)

turn-Keeps : (r : Receiver) (ts : ℕ) → Keeps r (turn_frame r ts)
unfolding turn_frame begin_frame
turn-Keeps r ts =
    either r (not r.frame_in_progress) _ _ refl
      (either r (ts == r.frame_ts) _ _ refl (close-Keeps r r.frame_ts))

after-Keeps : (h : Handled) (ts : ℕ) (marker : Bool) → Keeps h.0 (after_payload h ts marker)
unfolding after_payload
after-Keeps (r, false) ts marker = refl
after-Keeps (r, true) ts marker = either r marker _ _ (close-Keeps r ts) refl

video-Keeps :
    (r : Receiver) (q : List ℕ) (ts : ℕ) (marker : Bool) (payload_type : ℕ)
    → Keeps r (process_video_payload r q ts marker payload_type)
unfolding process_video_payload
video-Keeps r q ts marker payload_type =
    let h = handle_payload (turn_frame r ts) q payload_type in
    either r (length q == 0) _ _ refl
      (after-Keeps h ts marker ∙ (handle-Keeps (turn_frame r ts) q payload_type ∙ turn-Keeps r ts))

note_seq-Keeps : (r : Receiver) (seq : ℕ) → Keeps r (note_seq r seq)
unfolding note_seq lose_fragments
note_seq-Keeps r seq =
    either r (r.seq_initialized && not (seq == (r.last_seq + 1) % 2 ^ 16)) _ _
      (either r (is_h265 r.codec && r.h265_fu_in_progress) _ _ refl refl) refl

packet-Keeps : (r : Receiver) (p : List ℕ) (o : Option (List ℕ)) → Keeps r (handle_packet r p o)
unfolding handle_packet
packet-Keeps r p none = refl
packet-Keeps r p (some payload) =
    video-Keeps r payload (read_be32 (drop 4 p)) (bit_set (at p 1) 7) (low_bits (at p 1) 7)

pub process_rtp_packet-Keeps : (r : Receiver) (p : List ℕ) → Keeps r (process_rtp_packet r p)
unfolding process_rtp_packet
process_rtp_packet-Keeps r p =
    let noted = note_seq r (read_be16 (drop 2 p)) in
    either r (ltb (length p) 12) _ _ refl (
      either r (low_bits (shr (at p 0) 6) 2 == 2) _ _
        (packet-Keeps noted p (rtp_payload p) ∙ note_seq-Keeps r (read_be16 (drop 2 p))) refl)
