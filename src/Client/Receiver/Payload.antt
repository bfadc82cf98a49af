-- ===== src/Client/Receiver/Payload.antt =====
-- `RtpReceiver::processVideoPayload` of src/client/rtsp_client.cpp.
use Prim.Native.Nat.{bit_or, bit_and}
use rtsp_sdk.Common.{
  ℕ, zero, suc, Bool, true, false, not, ◌&&◌, ◌||◌, List, [], ◌∷◌, ◌++◌, length, take, drop, ltb,
  leb, ◌==◌, if◌then◌else◌,
}
use rtsp_sdk.Common.Bits.{shl, shr, low_bits, bit_set}
use rtsp_sdk.Common.Bytes.{at, read_be16}
use rtsp_sdk.Client.Receiver.{
  Receiver, is_h265, is_h265_irap, append_annex_b_nalu, note_idr, clear_current_frame_state,
  emit_frame,
}

-- The loop over the units of an aggregation packet; `rest` stands at `off`. Fuel: the bytes that are
-- left, of which a round takes two at least.
unfoldable pub aggregated : ℕ → (ℕ → Bool) → List ℕ → Receiver → Receiver
aggregated zero is_idr rest r = r
aggregated (suc f) is_idr rest r =
    let nalu_size = read_be16 rest in
    let nalu = take nalu_size (drop 2 rest) in
    let more =
      aggregated f is_idr (drop nalu_size (drop 2 rest))
        (note_idr (is_idr (at nalu 0)) (append_annex_b_nalu r nalu)) in
    if leb 2 (length rest)
    then (if nalu_size == 0 || ltb (length (drop 2 rest)) nalu_size then r else more)
    else r

abbrev pub h264_idr : ℕ → Bool
h264_idr b = low_bits b 5 == 5

abbrev pub h265_idr : ℕ → Bool
h265_idr b = is_h265_irap (low_bits (shr b 1) 6)

-- A fragment of H.264: `start_code` and the header again at the first one, then the bytes.
unfoldable pub fu_a_start : Receiver → ℕ → Receiver
fu_a_start r nal =
    note_idr (low_bits nal 5 == 5)
      (record r { frame_buffer = r.frame_buffer ++ (0 ∷ 0 ∷ 0 ∷ 1 ∷ nal ∷ []) })

unfoldable pub fu_bytes : Receiver → List ℕ → Receiver
fu_bytes r bytes = record r { frame_buffer = r.frame_buffer ++ bytes }

unfoldable pub reconstructed_nal : ℕ → ℕ → ℕ
reconstructed_nal indicator fu_header = bit_or (bit_and indicator 0xE0) (low_bits fu_header 5)

-- What a branch leaves: the receiver, and whether the code goes on to the marker or returns.
abbrev pub Handled : Type 0
Handled = Receiver × Bool

-- The branch of H.264.
unfoldable pub h264_payload : Receiver → List ℕ → Handled
h264_payload r p =
    let nal_type = low_bits (at p 0) 5 in
    if leb 1 nal_type && leb nal_type 23
    then (note_idr (nal_type == 5) (append_annex_b_nalu r p), true)
    else if nal_type == 24
    then (aggregated (length p) h264_idr (drop 1 p) r, true)
    else if nal_type == 25
    then (if ltb (length p) 3
        then (r, false)
        else (aggregated (length p) h264_idr (drop 3 p) r, true))
    else if nal_type == 28 && leb 2 (length p)
    then (
      fu_bytes
          (if bit_set (at p 1) 7 then fu_a_start r (reconstructed_nal (at p 0) (at p 1)) else r)
          (drop 2 p),
      true,
    )
    else (r, true)

-- The first fragment of H.265.
unfoldable pub fu_start : Receiver → ℕ → ℕ → ℕ → Receiver
fu_start r orig_type orig0 orig1 = note_idr (is_h265_irap orig_type) (record r {
  h265_fu_drop_mode = false;
  h265_fu_in_progress = true;
  h265_fu_start_offset = length r.frame_buffer;
  frame_buffer = r.frame_buffer ++ (0 ∷ 0 ∷ 0 ∷ 1 ∷ orig0 ∷ orig1 ∷ []);
})

-- The bytes of a fragment, and the end of the last one.
unfoldable pub fu_rest : Receiver → Bool → List ℕ → Receiver
fu_rest r end bytes = record r {
  frame_buffer = if r.h265_fu_drop_mode then r.frame_buffer else r.frame_buffer ++ bytes;
  h265_fu_in_progress = if end then false else r.h265_fu_in_progress;
}

-- A fragment of H.265, of three bytes at least.
unfoldable pub h265_fragment : Receiver → List ℕ → Handled
h265_fragment r p =
    let orig_type = low_bits (at p 2) 6 in
    let orig0 = low_bits (bit_or (bit_and (at p 0) 0x81) (shl orig_type 1)) 8 in
    if bit_set (at p 2) 7
    then (fu_rest (fu_start r orig_type orig0 (at p 1)) (bit_set (at p 2) 6) (drop 3 p), true)
    else if r.h265_fu_drop_mode || not r.h265_fu_in_progress
    then (r, false)
    else (fu_rest r (bit_set (at p 2) 6) (drop 3 p), true)

-- The branch of H.265.
unfoldable pub h265_payload : Receiver → List ℕ → Handled
h265_payload r p =
    let nal_type = low_bits (shr (at p 0) 1) 6 in
    if ltb (length p) 2
    then (r, false)
    else if not (nal_type == 49) && (not (nal_type == 48) && not (nal_type == 50))
    then (note_idr (is_h265_irap nal_type) (append_annex_b_nalu r p), true)
    else if nal_type == 48
    then (aggregated (length p) h265_idr (drop 2 p) r, true)
    else if nal_type == 49 && leb 3 (length p)
    then h265_fragment r p
    else (r, true)

-- A frame that lost a fragment is dropped.
unfoldable pub drop_frame : Receiver → Receiver
drop_frame r = record (clear_current_frame_state r) {
  h265_fu_drop_mode = false;
  h265_fu_in_progress = false;
}

-- The end of a frame.
unfoldable pub close_frame : Receiver → ℕ → Receiver
close_frame r timestamp =
    if is_h265 r.codec && r.h265_fu_drop_mode then drop_frame r else emit_frame r timestamp

unfoldable pub begin_frame : Receiver → ℕ → Receiver
begin_frame r timestamp = record r { frame_ts = timestamp; frame_in_progress = true }

-- A payload of another timestamp closes the frame that is in progress.
unfoldable pub turn_frame : Receiver → ℕ → Receiver
turn_frame r timestamp =
    if not r.frame_in_progress
    then begin_frame r timestamp
    else if timestamp == r.frame_ts
    then r
    else begin_frame (close_frame r r.frame_ts) timestamp

unfoldable pub after_payload : Handled → ℕ → Bool → Receiver
after_payload (r, false) timestamp marker = r
after_payload (r, true) timestamp marker = if marker then close_frame r timestamp else r

unfoldable pub handle_payload : Receiver → List ℕ → ℕ → Handled
handle_payload r p payload_type =
    if payload_type == r.payload_type && not (is_h265 r.codec)
    then h264_payload r p
    else h265_payload r p

unfoldable pub process_video_payload : Receiver → List ℕ → ℕ → Bool → ℕ → Receiver
process_video_payload r p timestamp marker payload_type =
    if length p == 0
    then r
    else after_payload (handle_payload (turn_frame r timestamp) p payload_type) timestamp marker
