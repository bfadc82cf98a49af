-- ===== src/Rtp/Frame.antt =====
-- The shared structs of include/rtsp-common/common.h. A buffer and its size are a list of bytes.
use rtsp_sdk.Common.{ℕ, ◌*◌, ◌/◌, ◌%◌, ◌^◌, Bool, List}

pub data CodecType : Type 0 where
  h264 h265 : CodecType

pub data FrameType : Type 0 where
  idr p b : FrameType

pub record VideoFrame : Type 0 where
  pub codec : CodecType
  pub frame_type : FrameType
  pub bytes : List ℕ
  pub pts : ℕ
  pub dts : ℕ
  pub width : ℕ
  pub height : ℕ
  pub fps : ℕ

-- `bytes` is what stands from the pointer `data` to the end of the buffer, of which `size` belong
-- to the unit.
pub record NaluUnit : Type 0 where
  pub nalu_type : ℕ
  pub bytes : List ℕ
  pub size : ℕ
  pub start_code : Bool

pub record RtpPacket : Type 0 where
  pub bytes : List ℕ
  pub seq : ℕ
  pub timestamp : ℕ
  pub ssrc : ℕ
  pub marker : Bool

-- In 64 bits, then cut to 32.
unfoldable pub convert_to_rtp_timestamp : ℕ → ℕ → ℕ
convert_to_rtp_timestamp pts_ms clock_rate = pts_ms * clock_rate % 2 ^ 64 / 1000 % 2 ^ 32
