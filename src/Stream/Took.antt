-- ===== src/Stream/Took.antt =====
-- One payload of H.264 in `processVideoPayload` of src/client/rtsp_client.cpp, no marker set.
use rtsp_sdk.Common.{
  ℕ, suc, ◌<◌, ◌≤◌, ◌≡◌, refl, ◌∙◌, ◌⊎◌, inl, inr, Bool, true, false, ◌&&◌, ◌||◌, List, [], ◌∷◌,
  ◌++◌, append_assoc, length, drop, leb, ◌==◌, if◌then◌else◌, arith,
}
use rtsp_sdk.Common.Bits.{low_bits}
use rtsp_sdk.Common.Bytes.{at}
use rtsp_sdk.Rtp.Frame.{h264}
use rtsp_sdk.Rtp.Packer.{fu_a_prefix}
use rtsp_sdk.Client.Receiver.{Receiver, is_h265, append_annex_b_nalu, note_idr}
use rtsp_sdk.Client.Receiver.Payload.{
  fu_a_start, fu_bytes, h264_payload, turn_frame, begin_frame, after_payload, handle_payload,
  process_video_payload,
}
use rtsp_sdk.Stream.Wire.{noted}
use rtsp_sdk.Stream.FuHeader.{indicator-type, starts, again}

-- The receiver takes what comes with this timestamp and payload type for the frame in progress, or
-- for a new one.
pub record Ready (r : Receiver) (ts payload_type : ℕ) : Type 0 where
  pub codec : r.codec ≡ h264
  pub payload : r.payload_type ≡ payload_type
  pub joins : (r.frame_in_progress ≡ false) ⊎ ((r.frame_in_progress ≡ true) × (r.frame_ts ≡ ts))

-- `r'` is `r` with the bytes in the frame in progress; no frame was handed out.
pub record Took (r r' : Receiver) (ts : ℕ) (bytes : List ℕ) (has_idr : Bool) : Type 0 where
  pub codec : r'.codec ≡ r.codec
  pub payload : r'.payload_type ≡ r.payload_type
  pub open_frame : r'.frame_in_progress ≡ true
  pub time : r'.frame_ts ≡ ts
  pub buffer : r'.frame_buffer ≡ r.frame_buffer ++ bytes
  pub idr_flag : r'.frame_is_idr ≡ (has_idr || r.frame_is_idr)
  pub frames : r'.frames ≡ r.frames
  pub output : r'.frames_output ≡ r.frames_output
  pub called : r'.callback ≡ r.callback
  pub wide : r'.width ≡ r.width
  pub high : r'.height ≡ r.height
  pub rate : r'.fps ≡ r.fps

pub Ready-Took :
    (r r' : Receiver) (ts payload_type : ℕ) (bytes : List ℕ) (has_idr : Bool)
    → Ready r ts payload_type
    → Took r r' ts bytes has_idr
    → Ready r' ts payload_type
Ready-Took r r' ts payload_type bytes has_idr h t = record {
  codec = t.codec ∙ h.codec;
  payload = t.payload ∙ h.payload;
  joins = inr (t.open_frame, t.time);
}

or_assoc : (a b c : Bool) → (b || (a || c)) ≡ ((a || b) || c)
or_assoc true true c = refl
or_assoc true false c = refl
or_assoc false true c = refl
or_assoc false false c = refl

pub Took-trans :
    (r r' r'' : Receiver) (ts : ℕ) (xs ys : List ℕ) (a b : Bool)
    → Took r r' ts xs a
    → Took r' r'' ts ys b
    → Took r r'' ts (xs ++ ys) (a || b)
Took-trans r r' r'' ts xs ys a b t u = record {
  codec = u.codec ∙ t.codec;
  payload = u.payload ∙ t.payload;
  open_frame = u.open_frame;
  time = u.time;
  buffer = u.buffer ∙ rw (t.buffer) (append_assoc r.frame_buffer xs ys);
  idr_flag = u.idr_flag ∙ rw (t.idr_flag) (or_assoc a b r.frame_is_idr);
  frames = u.frames ∙ t.frames;
  output = u.output ∙ t.output;
  called = u.called ∙ t.called;
  wide = u.wide ∙ t.wide;
  high = u.high ∙ t.high;
  rate = u.rate ∙ t.rate;
}

turn-joins :
    (r : Receiver) (ts : ℕ)
    → (r.frame_in_progress ≡ false) ⊎ ((r.frame_in_progress ≡ true) × (r.frame_ts ≡ ts))
    → turn_frame r ts ≡ begin_frame r ts
unfolding turn_frame begin_frame
turn-joins r ts (inl h) = rw h refl
turn-joins r ts (inr h) = ground arith

handle-h264 :
    (r : Receiver) (p : List ℕ) (ts payload_type : ℕ)
    → Ready r ts payload_type
    → handle_payload (begin_frame r ts) p payload_type ≡ h264_payload (begin_frame r ts) p
unfolding handle_payload is_h265 begin_frame
handle-h264 r p ts payload_type h =
    let same : (payload_type == r.payload_type) ≡ true = let e = h.payload in ground arith in
    rw (same, h.codec) refl

-- A payload of which the branch of H.264 makes `x`.
process-handled :
    (r x : Receiver) (p : List ℕ) (ts payload_type : ℕ)
    → Ready r ts payload_type
    → 0 < length p
    → h264_payload (begin_frame r ts) p ≡ (x, true)
    → process_video_payload r p ts false payload_type ≡ x
unfolding process_video_payload after_payload
process-handled r x p ts payload_type h some_bytes e =
    let long : (length p == 0) ≡ false = ground arith in
    rw (long, turn-joins r ts h.joins, handle-h264 r p ts payload_type h, e) refl

Ready-noted :
    (r : Receiver) (seq ts payload_type : ℕ)
    → Ready r ts payload_type
    → Ready (noted r seq) ts payload_type
unfolding noted
Ready-noted r seq ts payload_type h = record {
  codec = h.codec;
  payload = h.payload;
  joins = h.joins;
}

-- A unit as it is.
h264-single :
    (r : Receiver) (u : List ℕ)
    → 1 ≤ low_bits (at u 0) 5
    → low_bits (at u 0) 5 ≤ 23
    → h264_payload r u ≡ (note_idr (low_bits (at u 0) 5 == 5) (append_annex_b_nalu r u), true)
unfolding h264_payload
h264-single r u low high =
    let e : (leb 1 (low_bits (at u 0) 5) && leb (low_bits (at u 0) 5) 23) ≡ true = ground arith in
    rw e refl

if_true-or : (a b : Bool) → (if a then true else b) ≡ (a || b)
if_true-or true b = refl
if_true-or false b = refl

pub Took-single :
    (r : Receiver) (u : List ℕ) (seq ts payload_type : ℕ)
    → Ready r ts payload_type
    → 0 < length u
    → 1 ≤ low_bits (at u 0) 5
    → low_bits (at u 0) 5 ≤ 23
    → Took r
        (process_video_payload (noted r seq) u ts false payload_type)
        ts
        (0 ∷ 0 ∷ 0 ∷ 1 ∷ u)
        (low_bits (at u 0) 5 == 5)
unfolding note_idr append_annex_b_nalu begin_frame noted
Took-single r [] seq ts payload_type h some_bytes low high = absurd (omega arith)
Took-single r (b ∷ u) seq ts payload_type h some_bytes low high =
    rw
      (process-handled (noted r seq) _ (b ∷ u) ts payload_type (Ready-noted r seq ts payload_type h)
        some_bytes (h264-single (begin_frame (noted r seq) ts) (b ∷ u) low high))
      (record {
        codec = refl;
        payload = refl;
        open_frame = refl;
        time = refl;
        buffer = refl;
        idr_flag = if_true-or (low_bits b 5 == 5) r.frame_is_idr;
        frames = refl;
        output = refl;
        called = refl;
        wide = refl;
        high = refl;
        rate = refl;
      })

front :
    (header : ℕ) (first last : Bool) (k : List ℕ)
    → at (fu_a_prefix header first last ++ k) 0 ≡ at (fu_a_prefix header first last) 0
unfolding fu_a_prefix
front header first last k = refl

front_next :
    (header : ℕ) (first last : Bool) (k : List ℕ)
    → at (fu_a_prefix header first last ++ k) 1 ≡ at (fu_a_prefix header first last) 1
unfolding fu_a_prefix
front_next header first last k = refl

behind :
    (header : ℕ) (first last : Bool) (k : List ℕ) → drop 2 (fu_a_prefix header first last ++ k) ≡ k
unfolding fu_a_prefix
behind header first last k = refl

two :
    (header : ℕ) (first last : Bool) (k : List ℕ)
    → length (fu_a_prefix header first last ++ k) ≡ suc (suc (length k))
unfolding fu_a_prefix
two header first last k = refl

-- A fragment.
h264-fragment :
    (r : Receiver) (header : ℕ) (first last : Bool) (k : List ℕ)
    → header < 128
    → h264_payload r (fu_a_prefix header first last ++ k)
      ≡ (fu_bytes (if first then fu_a_start r header else r) k, true)
unfolding h264_payload
h264-fragment r header first last k h =
    let long : leb 2 (suc (suc (length k))) ≡ true = ground arith in
    rw
      (
        front header first last k,
        indicator-type header first last h,
        two header first last k,
        long,
        front_next header first last k,
        starts header first last h,
        again header first last h,
        behind header first last k,
      )
      refl

-- What a fragment adds.
unfoldable pub fragment_bytes : Bool → ℕ → List ℕ → List ℕ
fragment_bytes true header k = 0 ∷ 0 ∷ 0 ∷ 1 ∷ header ∷ k
fragment_bytes false header k = k

fragment-Took :
    (r : Receiver) (header : ℕ) (first : Bool) (k : List ℕ) (seq ts : ℕ)
    → Took r
        (fu_bytes
          (if first
            then fu_a_start (begin_frame (noted r seq) ts) header
            else begin_frame (noted r seq) ts)
          k)
        ts
        (fragment_bytes first header k)
        (first && (low_bits header 5 == 5))
unfolding fu_bytes fu_a_start note_idr begin_frame noted fragment_bytes
fragment-Took r header true k seq ts = record {
  codec = refl;
  payload = refl;
  open_frame = refl;
  time = refl;
  buffer = append_assoc r.frame_buffer (0 ∷ 0 ∷ 0 ∷ 1 ∷ header ∷ []) k;
  idr_flag = if_true-or (low_bits header 5 == 5) r.frame_is_idr;
  frames = refl;
  output = refl;
  called = refl;
  wide = refl;
  high = refl;
  rate = refl;
}
fragment-Took r header false k seq ts = record {
  codec = refl;
  payload = refl;
  open_frame = refl;
  time = refl;
  buffer = refl;
  idr_flag = refl;
  frames = refl;
  output = refl;
  called = refl;
  wide = refl;
  high = refl;
  rate = refl;
}

pub Took-fragment :
    (r : Receiver) (header : ℕ) (first last : Bool) (k : List ℕ) (seq ts payload_type : ℕ)
    → Ready r ts payload_type
    → header < 128
    → Took r
        (process_video_payload
          (noted r seq)
          (fu_a_prefix header first last ++ k)
          ts
          false
          payload_type)
        ts
        (fragment_bytes first header k)
        (first && (low_bits header 5 == 5))
Took-fragment r header first last k seq ts payload_type h small =
    rw
      (process-handled (noted r seq) _ (fu_a_prefix header first last ++ k) ts payload_type
        (Ready-noted r seq ts payload_type h) (omega (arith, two header first last k))
        (h264-fragment (begin_frame (noted r seq) ts) header first last k small))
      (fragment-Took r header first k seq ts)
