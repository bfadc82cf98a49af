-- ===== src/Client/Receiver.antt =====
-- `RtpReceiver` of src/client/rtsp_client.cpp: its state and its small steps.
pub mod Payload
pub mod Packet
pub mod Jitter
pub mod Reorder
pub mod InOrder
pub mod Swapped
mod Examples
use rtsp_sdk.Common.{
  ℕ, ◌+◌, ◌/◌, Bool, true, false, ◌&&◌, List, [], ◌∷◌, ◌++◌, length, leb, ◌==◌, if◌then◌else◌,
}
use rtsp_sdk.Rtp.Frame.{CodecType, VideoFrame, h264, h265, idr, p}

-- The fields of the class but for its sockets and its thread. `frames` are the frames given to the
-- callback, the last one in front; `reorder_buffer` is the map, by growing keys.
pub record Receiver : Type 0 where
  pub callback : Bool
  pub frames : List VideoFrame
  pub codec : CodecType
  pub payload_type : ℕ
  pub width : ℕ
  pub height : ℕ
  pub fps : ℕ
  pub frame_buffer : List ℕ
  pub frame_ts : ℕ
  pub frame_in_progress : Bool
  pub frame_is_idr : Bool
  pub seq_initialized : Bool
  pub last_seq : ℕ
  pub h265_fu_in_progress : Bool
  pub h265_fu_drop_mode : Bool
  pub h265_fu_start_offset : ℕ
  pub jitter_buffer_packets : ℕ
  pub reorder_buffer : List (ℕ × List ℕ)
  pub reorder_initialized : Bool
  pub expected_seq : ℕ
  pub packets_received : ℕ
  pub packets_reordered : ℕ
  pub packet_loss_events : ℕ
  pub frames_output : ℕ

abbrev pub new_receiver : Receiver
new_receiver = record {
  callback = false;
  frames = [];
  codec = h264;
  payload_type = 96;
  width = 1920;
  height = 1080;
  fps = 30;
  frame_buffer = [];
  frame_ts = 0;
  frame_in_progress = false;
  frame_is_idr = false;
  seq_initialized = false;
  last_seq = 0;
  h265_fu_in_progress = false;
  h265_fu_drop_mode = false;
  h265_fu_start_offset = 0;
  jitter_buffer_packets = 32;
  reorder_buffer = [];
  reorder_initialized = false;
  expected_seq = 0;
  packets_received = 0;
  packets_reordered = 0;
  packet_loss_events = 0;
  frames_output = 0;
}

unfoldable pub set_callback : Receiver → Receiver
set_callback r = record r { callback = true }

unfoldable pub set_video_info : Receiver → CodecType → ℕ → ℕ → ℕ → ℕ → Receiver
set_video_info r codec width height fps payload_type = record r {
  codec = codec;
  width = width;
  height = height;
  fps = fps;
  payload_type = payload_type;
}

unfoldable pub set_jitter_buffer_packets : Receiver → ℕ → Receiver
set_jitter_buffer_packets r packets = record r {
  jitter_buffer_packets = if packets == 0 then 1 else packets;
}

unfoldable pub is_h265 : CodecType → Bool
is_h265 h264 = false
is_h265 h265 = true

unfoldable pub is_h265_irap : ℕ → Bool
is_h265_irap nal_type = leb 16 nal_type && leb nal_type 21

unfoldable pub append_annex_b_nalu : Receiver → List ℕ → Receiver
append_annex_b_nalu r [] = r
append_annex_b_nalu r (b ∷ nalu) = record r {
  frame_buffer = r.frame_buffer ++ (0 ∷ 0 ∷ 0 ∷ 1 ∷ b ∷ nalu);
}

-- `if (test) frame_is_idr_ = true`
unfoldable pub note_idr : Bool → Receiver → Receiver
note_idr test r = record r { frame_is_idr = if test then true else r.frame_is_idr }

unfoldable pub clear_current_frame_state : Receiver → Receiver
clear_current_frame_state r = record r {
  frame_buffer = [];
  frame_is_idr = false;
  frame_in_progress = false;
}

-- The frame that `emitFrame` hands out.
unfoldable pub frame_of : Receiver → ℕ → VideoFrame
frame_of r timestamp = record {
  codec = r.codec;
  frame_type = if r.frame_is_idr then idr else p;
  bytes = r.frame_buffer;
  pts = timestamp / 90;
  dts = timestamp / 90;
  width = r.width;
  height = r.height;
  fps = r.fps;
}

unfoldable pub emit_frame : Receiver → ℕ → Receiver
emit_frame r timestamp = if length r.frame_buffer == 0 then r else record r {
  frames = if r.callback then frame_of r timestamp ∷ r.frames else r.frames;
  frames_output = r.frames_output + 1;
  frame_buffer = [];
  frame_is_idr = false;
  frame_in_progress = false;
}
