-- ===== src/Client/Receiver/Packet.antt =====
-- `RtpReceiver::processRtpPacket` and `ingestRtpPacket` of src/client/rtsp_client.cpp.
use rtsp_sdk.Common.{
  ℕ, zero, suc, ◌+◌, ◌-◌, ◌*◌, ◌%◌, ◌^◌, true, false, not, ◌&&◌, ◌||◌, Option, none, some, List, [],
  ◌∷◌, length, take, drop, ltb, leb, ◌==◌, if◌then◌else◌,
}
use rtsp_sdk.Common.Bits.{shr, low_bits, bit_set}
use rtsp_sdk.Common.Bytes.{at, read_be16, read_be32}
use rtsp_sdk.Client.Receiver.{Receiver, is_h265}
use rtsp_sdk.Client.Receiver.Payload.{process_video_payload}

-- A gap in the sequence numbers throws away the fragments of an unfinished unit of H.265.
unfoldable pub lose_fragments : Receiver → Receiver
lose_fragments r =
    if is_h265 r.codec && r.h265_fu_in_progress
    then record r {
      packet_loss_events = r.packet_loss_events + 1;
      h265_fu_drop_mode = true;
      h265_fu_in_progress = false;
      frame_buffer =
          if leb r.h265_fu_start_offset (length r.frame_buffer)
          then take r.h265_fu_start_offset r.frame_buffer
          else [];
    }
    else r

unfoldable pub note_seq : Receiver → ℕ → Receiver
note_seq r seq =
    let gap = r.seq_initialized && not (seq == (r.last_seq + 1) % 2 ^ 16) in
    record (if gap then lose_fragments r else r) { seq_initialized = true; last_seq = seq }

-- The length of the header with its contributing sources and its extension; `none` is a packet that
-- ends within.
unfoldable pub header_len : List ℕ → Option ℕ
header_len p =
    let base = 12 + low_bits (at p 0) 4 * 4 in
    let with_ext = base + (4 + read_be16 (drop (base + 2) p) * 4) in
    if ltb (length p) base
    then none
    else if bit_set (at p 0) 4
    then (if ltb (length p) (base + 4)
        then none
        else if ltb (length p) with_ext
        then none
        else some with_ext)
    else some base

-- What is left of the payload without the padding; `none` is padding that does not fit.
unfoldable pub unpadded : List ℕ → ℕ → Option (List ℕ)
unpadded p header =
    let payload_len = length p - header in
    let pad_len = at p (length p - 1) in
    if bit_set (at p 0) 5
    then (if payload_len == 0 || (pad_len == 0 || ltb payload_len pad_len)
        then none
        else some (take (payload_len - pad_len) (drop header p)))
    else some (drop header p)

-- The payload of a packet.
unfoldable pub rtp_payload : List ℕ → Option (List ℕ)
rtp_payload p = elim (header_len p) [ none ↦ none | some header ↦ unpadded p header ]

unfoldable pub handle_packet : Receiver → List ℕ → Option (List ℕ) → Receiver
handle_packet r p none = r
handle_packet r p (some payload) =
    process_video_payload r payload (read_be32 (drop 4 p)) (bit_set (at p 1) 7)
      (low_bits (at p 1) 7)

unfoldable pub process_rtp_packet : Receiver → List ℕ → Receiver
process_rtp_packet r p =
    if ltb (length p) 12
    then r
    else if low_bits (shr (at p 0) 6) 2 == 2
    then handle_packet (note_seq r (read_be16 (drop 2 p))) p (rtp_payload p)
    else r

-- The reorder buffer as a map.
unfoldable pub put : ℕ → List ℕ → List (ℕ × List ℕ) → List (ℕ × List ℕ)
put k v [] = (k, v) ∷ []
put k v ((k', v') ∷ m) =
    let later = put k v m in
    if ltb k k' then (k, v) ∷ ((k', v') ∷ m) else if k == k' then (k, v) ∷ m else (k', v') ∷ later

unfoldable pub lookup : ℕ → List (ℕ × List ℕ) → Option (List ℕ)
lookup k [] = none
lookup k ((k', v') ∷ m) = let later = lookup k m in if k == k' then some v' else later

unfoldable pub erase : ℕ → List (ℕ × List ℕ) → List (ℕ × List ℕ)
erase k [] = []
erase k ((k', v') ∷ m) = let later = erase k m in if k == k' then m else (k', v') ∷ later

-- One packet of a run is handled and taken out.
unfoldable pub run_step : Receiver → List ℕ → Receiver
run_step r packet =
    let after = process_rtp_packet r packet in
    record after {
      reorder_buffer = erase r.expected_seq r.reorder_buffer;
      expected_seq = (r.expected_seq + 1) % 2 ^ 16;
    }

-- The loop over a run of consecutive packets. Fuel: the packets that are buffered.
unfoldable pub run : ℕ → Receiver → Receiver
run zero r = r
run (suc f) r = elim (lookup r.expected_seq r.reorder_buffer) [
  | none ↦ r
  | some packet ↦ run f (run_step r packet)
]

unfoldable pub run_all : Receiver → Receiver
run_all r = run (length r.reorder_buffer) r

-- `expected_seq_` moves to the first packet that is buffered, and its run is handled.
unfoldable pub skip_to : Receiver → ℕ → Receiver
skip_to r seq = run_all (record r { expected_seq = seq })

-- The buffer, by growing keys, is over its size.
unfoldable pub overflow_from : Receiver → List (ℕ × List ℕ) → Receiver
overflow_from r [] = r
overflow_from r ((k, v) ∷ m) =
    if ltb r.jitter_buffer_packets (length ((k, v) ∷ m)) then skip_to r k else r

unfoldable pub overflow : Receiver → Receiver
overflow r = overflow_from r r.reorder_buffer

unfoldable pub parse_rtp_timestamp : List ℕ → ℕ
parse_rtp_timestamp p = if ltb (length p) 8 then 0 else read_be32 (drop 4 p)

unfoldable pub count_loss : Receiver → ℕ → Receiver
count_loss r seq = record r {
  packet_loss_events =
      if r.expected_seq == seq then r.packet_loss_events else r.packet_loss_events + 1;
}

-- Stuck at a missing packet while another timestamp came in; the last argument is what the buffer
-- has at `expected_seq_`.
unfoldable pub advance_at : Receiver → ℕ → ℕ → List ℕ → Option (List ℕ) → Receiver
advance_at r ts k v (some packet) = r
advance_at r ts k v none = if ts == parse_rtp_timestamp v then r else skip_to (count_loss r k) k

unfoldable pub advance_from : Receiver → ℕ → List (ℕ × List ℕ) → Receiver
advance_from r ts [] = r
advance_from r ts ((k, v) ∷ m) = advance_at r ts k v (lookup r.expected_seq ((k, v) ∷ m))

unfoldable pub force_advance : Receiver → ℕ → Receiver
force_advance r ts = advance_from r ts r.reorder_buffer

unfoldable pub note_arrival : Receiver → List ℕ → Receiver
note_arrival r packet =
    let seq = read_be16 (drop 2 packet) in
    let expected = if r.reorder_initialized then r.expected_seq else seq in
    record r {
      packets_received = r.packets_received + 1;
      expected_seq = expected;
      reorder_initialized = true;
      packets_reordered = if seq == expected then r.packets_reordered else r.packets_reordered + 1;
      reorder_buffer = put seq packet r.reorder_buffer;
    }

unfoldable pub ingest_rtp_packet : Receiver → List ℕ → Receiver
ingest_rtp_packet r packet =
    if ltb (length packet) 12
    then r
    else force_advance (overflow (run_all (note_arrival r packet))) (parse_rtp_timestamp packet)
