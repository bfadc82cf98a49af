-- ===== src/Server/Session.antt =====
-- `ClientSession` of src/server/rtsp_server.cpp: its fields, `stop` and `pushFrame`, and the frame
-- that `sendLoop` takes. A running thread is a flag; joining it is clearing the flag.
pub mod Queue
pub mod Interleaved
pub mod Sending
use rtsp_sdk.Common.{
  ℕ, ◌+◌, Bool, true, false, Option, none, some, List, [], ◌∷◌, ◌++◌, length, drop, leb,
  if◌then◌else◌,
}
use rtsp_sdk.Text.Chars.{Text}
use rtsp_sdk.Rtp.Frame.{CodecType, VideoFrame}
use rtsp_sdk.Rtp.Packer.{Packer}
use rtsp_sdk.Rtp.Sender.{Sender}

pub data Role : Type 0 where
  player publisher : Role

-- `RtpSender` with the ports that it is bound to.
pub record LocalSender : Type 0 where
  pub sender : Sender
  pub rtp_port : ℕ
  pub rtcp_port : ℕ

-- `PublishRtpReceiver` without its reception: the ports, whether the sockets are still open, whether
-- it is running, and what `setVideoInfo` has set.
pub record PublishReceiver : Type 0 where
  pub rtp_port : ℕ
  pub rtcp_port : ℕ
  pub is_open : Bool
  pub running : Bool
  pub codec : CodecType
  pub width : ℕ
  pub height : ℕ
  pub fps : ℕ
  pub payload_type : ℕ

unfoldable pub start_receiver : PublishReceiver → PublishReceiver
start_receiver r = if r.running then r else record r { running = true }

-- One that was never started is left alone; the sockets of a running one are closed.
unfoldable pub stop_receiver : PublishReceiver → PublishReceiver
stop_receiver r = if r.running then record r { running = false; is_open = false } else r

pub record ClientSession : Type 0 where
  pub session_id : Text
  pub path : Text
  pub client_ip : Text
  pub role : Role
  pub client_rtp_port : ℕ
  pub client_rtcp_port : ℕ
  pub rtp_sender : Option LocalSender
  pub rtp_packer : Option (CodecType × Packer)
  pub rtp_receiver : Option PublishReceiver
  pub publisher_payload_type : ℕ
  pub use_tcp_interleaved : Bool
  pub interleaved_rtp_channel : ℕ
  pub playing : Bool
  pub sending : Bool
  pub frame_queue : List VideoFrame
  pub last_activity : ℕ

-- The constructor, at a time.
unfoldable pub new_session : ℕ → ClientSession
new_session now = record {
  session_id = [];
  path = [];
  client_ip = [];
  role = player;
  client_rtp_port = 0;
  client_rtcp_port = 0;
  rtp_sender = none;
  rtp_packer = none;
  rtp_receiver = none;
  publisher_payload_type = 96;
  use_tcp_interleaved = false;
  interleaved_rtp_channel = 0;
  playing = false;
  sending = false;
  frame_queue = [];
  last_activity = now;
}

abbrev pub map_receiver :
    (PublishReceiver → PublishReceiver) → Option PublishReceiver → Option PublishReceiver
map_receiver f none = none
map_receiver f (some r) = some (f r)

unfoldable pub stop : ClientSession → ClientSession
stop s = record s {
  playing = false;
  sending = false;
  rtp_receiver = map_receiver stop_receiver s.rtp_receiver;
  frame_queue = [];
}

abbrev pub max_queue_size : ℕ
max_queue_size = 30

-- The queue without its oldest frame, if it is full.
unfoldable pub drop_oldest : List VideoFrame → List VideoFrame
drop_oldest queue = if leb max_queue_size (length queue) then drop 1 queue else queue

abbrev pub push_as : Role → ClientSession → VideoFrame → ClientSession
push_as publisher s frame = s
push_as player s frame = record s { frame_queue = drop_oldest s.frame_queue ++ (frame ∷ []) }

-- `pushFrame`; only the frames of a player are taken.
unfoldable pub push_frame : ClientSession → VideoFrame → ClientSession
push_frame s frame = push_as s.role s frame

-- What a round of `sendLoop` meets: it ends, it waits, or it has a frame to send.
pub data Turn : Type 0 where
  done wait : Turn
  send : VideoFrame → ClientSession → Turn

abbrev pub next_in : ClientSession → List VideoFrame → Turn
next_in s [] = wait
next_in s (frame ∷ queue) = send frame (record s { frame_queue = queue })

unfoldable pub send_turn : ClientSession → Turn
send_turn s = if s.playing then next_in s s.frame_queue else done
