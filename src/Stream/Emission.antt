-- ===== src/Stream/Emission.antt =====
-- When `processVideoPayload` of src/client/rtsp_client.cpp hands a frame of the packer out.
use rtsp_sdk.Common.{
  sym, subst, ℕ, zero, suc, ◌^◌, ◌/◌, ◌<◌, ◌≡◌, ◌≢◌, refl, ap, ◌∙◌, inl, inr, Bool, true, false,
  not, ◌&&◌, ◌||◌, List, [], ◌∷◌, ◌++◌, length, take, drop, ltb, leb, ◌==◌, if◌then◌else◌,
  Bool-cases, arith,
}
use rtsp_sdk.Common.Bits.{low_bits, bit_set}
use rtsp_sdk.Common.Bytes.{at, read_be16, be16}
use rtsp_sdk.Rtp.Frame.{VideoFrame, h264, idr, p, convert_to_rtp_timestamp}
use rtsp_sdk.Rtp.Packer.{Packer, make_packet}
use rtsp_sdk.Client.Receiver.{
  Receiver, is_h265, append_annex_b_nalu, note_idr, frame_of, emit_frame,
}
use rtsp_sdk.Client.Receiver.Payload.{
  Handled, aggregated, h264_idr, fu_a_start, fu_bytes, reconstructed_nal, h264_payload, turn_frame,
  begin_frame, close_frame, after_payload, handle_payload, process_video_payload,
}
use rtsp_sdk.Client.Receiver.Packet.{note_arrival, run_step, ingest_rtp_packet}
use rtsp_sdk.Client.Receiver.InOrder.{Waiting, ingest-run_step}
use rtsp_sdk.Rtp.Nalu.AnnexB.{annex_b}
use rtsp_sdk.Stream.Wire.{noted, wire_seq, twelve, process-make_packet}
use rtsp_sdk.Stream.Took.{Took}
use rtsp_sdk.Stream.Delivery.{deliver}
use rtsp_sdk.Stream.Frames.{annex_b-some, or-false, any_idr, Delivers}

append-frames :
    (r : Receiver) (nalu : List ℕ) (b : Bool)
    → (note_idr b (append_annex_b_nalu r nalu)).frames ≡ r.frames
unfolding note_idr append_annex_b_nalu
append-frames r [] b = refl
append-frames r (x ∷ nalu) b = refl

aggregated-frames :
    (f : ℕ) (is_idr : ℕ → Bool) (rest : List ℕ) (r : Receiver)
    → (aggregated f is_idr rest r).frames ≡ r.frames
unfolding aggregated
aggregated-frames zero is_idr rest r = refl
aggregated-frames (suc f) is_idr rest r =
    let n = read_be16 rest in
    let nalu = take n (drop 2 rest) in
    let ih =
      aggregated-frames f is_idr (drop n (drop 2 rest))
        (note_idr (is_idr (at nalu 0)) (append_annex_b_nalu r nalu))
      ∙ append-frames r nalu (is_idr (at nalu 0)) in
    elim (Bool-cases (leb 2 (length rest))) [
      | inr short ↦ rw short refl
      | inl long ↦ elim (Bool-cases (n == 0 || ltb (length (drop 2 rest)) n)) [
        | inl stop ↦ rw (long, stop) refl
        | inr on ↦ rw (long, on) ih
      ]
    ]

fu-frames :
    (r : Receiver) (b : Bool) (nal : ℕ) (k : List ℕ)
    → (fu_bytes (if b then fu_a_start r nal else r) k).frames ≡ r.frames
unfolding fu_bytes fu_a_start note_idr
fu-frames r true nal k = refl
fu-frames r false nal k = refl

-- One of two results, both of which keep the frames.
either-keeps :
    (fs : List VideoFrame) (b : Bool) (x y : Handled)
    → x.0.frames ≡ fs
    → y.0.frames ≡ fs
    → (if b then x else y).0.frames ≡ fs
either-keeps fs true x y hx hy = hx
either-keeps fs false x y hx hy = hy

h264-frames : (r : Receiver) (q : List ℕ) → (h264_payload r q).0.frames ≡ r.frames
unfolding h264_payload
h264-frames r q =
    let t = low_bits (at q 0) 5 in
    either-keeps r.frames (leb 1 t && leb t 23) _ _ (append-frames r q (t == 5)) (
      either-keeps r.frames (t == 24) _ _ (aggregated-frames (length q) h264_idr (drop 1 q) r) (
        either-keeps r.frames (t == 25) _ _
          (either-keeps r.frames (ltb (length q) 3) _ _ refl
            (aggregated-frames (length q) h264_idr (drop 3 q) r))
          (either-keeps r.frames (t == 28 && leb 2 (length q)) _ _
            (fu-frames r (bit_set (at q 1) 7) (reconstructed_nal (at q 0) (at q 1)) (drop 2 q))
            refl)))

after-frames : (h : Handled) (ts : ℕ) → (after_payload h ts false).frames ≡ h.0.frames
unfolding after_payload
after-frames (r, true) ts = refl
after-frames (r, false) ts = refl

goes_h264 :
    (r : Receiver) (payload_type : ℕ)
    → r.codec ≡ h264
    → r.payload_type ≡ payload_type
    → (payload_type == r.payload_type && not (is_h265 r.codec)) ≡ true
unfolding is_h265
goes_h264 r payload_type c e =
    let same : (payload_type == r.payload_type) ≡ true = ground arith in rw (same, c) refl

handled-frames :
    (r : Receiver) (q : List ℕ) (payload_type : ℕ)
    → r.codec ≡ h264
    → r.payload_type ≡ payload_type
    → (handle_payload r q payload_type).0.frames ≡ r.frames
unfolding handle_payload
handled-frames r q payload_type c e = rw (goes_h264 r payload_type c e) (h264-frames r q)

if_on : {A : Type 0} (b : Bool) (x y : A) → b ≡ true → (if b then x else y) ≡ x
if_on true x y h = refl
if_on false x y h = absurd (cc)

if_off : {A : Type 0} (b : Bool) (x y : A) → b ≡ false → (if b then x else y) ≡ y
if_off true x y h = absurd (cc)
if_off false x y h = refl

emit-frames :
    (r : Receiver) (ts : ℕ)
    → 0 < length r.frame_buffer
    → r.callback ≡ true
    → (emit_frame r ts).frames ≡ frame_of r ts ∷ r.frames
unfolding emit_frame
emit-frames r ts some_bytes called =
    let filled : (length r.frame_buffer == 0) ≡ false = ground arith in
    rw filled (if_on r.callback (frame_of r ts ∷ r.frames) r.frames called)

close-h264 : (r : Receiver) (ts : ℕ) → r.codec ≡ h264 → close_frame r ts ≡ emit_frame r ts
unfolding close_frame is_h265
close-h264 r ts c =
    let t : (is_h265 r.codec && r.h265_fu_drop_mode) ≡ false = rw c refl in if_off _ _ _ t

turn-other :
    (r : Receiver) (ts ts' : ℕ)
    → r.frame_in_progress ≡ true
    → r.frame_ts ≡ ts
    → ts' ≢ ts
    → turn_frame r ts' ≡ begin_frame (close_frame r ts) ts'
unfolding turn_frame
turn-other r ts ts' o e other =
    let going : not r.frame_in_progress ≡ false = rw o refl in
    let differs : (ts' == r.frame_ts) ≡ false = ground arith in
    if_off _ _ _ going ∙ (if_off _ _ _ differs ∙ ap (λ z. begin_frame (close_frame r z) ts') e)

emit-same :
    (r : Receiver) (ts : ℕ)
    → ((emit_frame r ts).codec ≡ r.codec) × ((emit_frame r ts).payload_type ≡ r.payload_type)
unfolding emit_frame
emit-same r ts = elim (Bool-cases (length r.frame_buffer == 0)) [
  | inl e ↦ rw e (refl, refl)
  | inr e ↦ rw e (refl, refl)
]

-- A payload of H.264 with another timestamp, no marker: the frame in progress is handed out.
process-emits :
    (r : Receiver) (q : List ℕ) (ts ts' payload_type : ℕ)
    → r.codec ≡ h264
    → r.payload_type ≡ payload_type
    → r.frame_in_progress ≡ true
    → r.frame_ts ≡ ts
    → ts' ≢ ts
    → 0 < length r.frame_buffer
    → r.callback ≡ true
    → 0 < length q
    → (process_video_payload r q ts' false payload_type).frames ≡ frame_of r ts ∷ r.frames
unfolding process_video_payload begin_frame
process-emits r q ts ts' payload_type c e o t other some_bytes called long =
    let filled : (length q == 0) ≡ false = ground arith in
    let same = emit-same r ts in
    rw (filled, turn-other r ts ts' o t other, close-h264 r ts c)
      (after-frames (handle_payload (begin_frame (emit_frame r ts) ts') q payload_type) ts'
        ∙ (handled-frames (begin_frame (emit_frame r ts) ts') q payload_type (same.0 ∙ c)
              (same.1 ∙ e)
            ∙ emit-frames r ts some_bytes called))

-- The frame that a receiver of this configuration makes of the bytes.
unfoldable pub frame_with : Receiver → ℕ → List ℕ → Bool → VideoFrame
frame_with r ts bytes has_idr = record {
  codec = r.codec;
  frame_type = if has_idr then idr else p;
  bytes = bytes;
  pts = ts / 90;
  dts = ts / 90;
  width = r.width;
  height = r.height;
  fps = r.fps;
}

frame_of-Took :
    (r r' : Receiver) (ts : ℕ) (bytes : List ℕ) (has_idr : Bool)
    → Took r r' ts bytes has_idr
    → r.frame_buffer ≡ []
    → r.frame_is_idr ≡ false
    → frame_of r' ts ≡ frame_with r ts bytes has_idr
unfolding frame_of frame_with
frame_of-Took r r' ts bytes has_idr t empty none_yet =
    let b : r'.frame_buffer ≡ bytes = t.buffer ∙ ap (λ (z : List ℕ). z ++ bytes) empty in
    let f : r'.frame_is_idr ≡ has_idr =
      t.idr_flag ∙ (ap (λ z. has_idr || z) none_yet ∙ or-false has_idr) in
    simp (t.codec, f, b, t.wide, t.high, t.rate)

-- What the frames are after a packet that is waited for.
frames-ingest :
    (k : Packer) (r : Receiver) (ts : ℕ) (marker : Bool) (body : List ℕ)
    → k.payload_type < 128
    → k.seq < 2 ^ 16
    → ts < 2 ^ 32
    → r.codec ≡ h264
    → Waiting r k.seq
    → (ingest_rtp_packet r (make_packet k ts marker body).bytes).frames
      ≡ (process_video_payload
          (noted (note_arrival r (make_packet k ts marker body).bytes) (read_be16 (be16 k.seq)))
          body
          ts
          false
          k.payload_type).frames
unfolding note_arrival run_step
frames-ingest k r ts marker body small small_seq small_ts c w =
    let x = (make_packet k ts marker body).bytes in
    ap (λ (z : Receiver). z.frames)
      (ingest-run_step r x k.seq w (twelve k ts marker body) (wire_seq k ts marker body small_seq))
    ∙ ap (λ (z : Receiver). z.frames)
        (process-make_packet k (note_arrival r x) ts marker body small small_ts c)

-- A frame of the packer was delivered to a receiver that had no bytes before and has a callback.
-- Then the next packet of the same payload type, with the next number, another timestamp and a
-- payload, hands out one frame: it has the units of the frame, its RTP timestamp divided by 90, and is
-- IDR exactly when one of the units is.
pub next_packet-emits :
    (k k' : Packer) (r : Receiver) (frame : VideoFrame) (u : List ℕ) (us : List (List ℕ))
    (d : Delivers k r frame (u ∷ us)) (ts' : ℕ) (marker : Bool) (body : List ℕ)
    → r.codec ≡ h264
    → r.payload_type ≡ k'.payload_type
    → k'.payload_type < 128
    → k'.seq ≡ d.after.seq
    → r.callback ≡ true
    → r.frame_buffer ≡ []
    → r.frame_is_idr ≡ false
    → ts' < 2 ^ 32
    → ts' ≢ convert_to_rtp_timestamp frame.pts k.clock_rate
    → 0 < length body
    → (ingest_rtp_packet (deliver r d.packets) (make_packet k' ts' marker body).bytes).frames
      ≡ frame_with r
          (convert_to_rtp_timestamp frame.pts k.clock_rate)
          (annex_b (u ∷ us))
          (any_idr (u ∷ us))
        ∷ r.frames
unfolding noted frame_of note_arrival
next_packet-emits k k' r frame u us d ts' marker body c e small same called empty none_yet small_ts
      other long =
    let r' = deliver r d.packets in
    let q = note_arrival r' (make_packet k' ts' marker body).bytes in
    let ts = convert_to_rtp_timestamp frame.pts k.clock_rate in
    let bytes = annex_b (u ∷ us) in
    let t = d.took in
    let filled : r'.frame_buffer ≡ bytes = t.buffer ∙ ap (λ (z : List ℕ). z ++ bytes) empty in
    let full = ap length filled in
    let some_bytes = annex_b-some u us in
    let bound = d.small_seq in
    frames-ingest k' r' ts' marker body small (omega arith) small_ts (t.codec ∙ c)
      (subst (Waiting r') (sym same) d.waits)
    ∙ (process-emits (noted q (read_be16 (be16 k'.seq))) body ts ts' k'.payload_type (t.codec ∙ c)
          (t.payload ∙ e) t.open_frame t.time other (omega arith) (t.called ∙ called) long
        ∙ (ap (λ z. z ∷ r'.frames) (frame_of-Took r r' ts bytes (any_idr (u ∷ us)) t empty none_yet)
            ∙ ap (λ z. frame_with r ts bytes (any_idr (u ∷ us)) ∷ z) t.frames))
