-- ===== src/Rtmp/Chunk/Message.antt =====
-- `RtmpMessage` of src/rtmp/rtmp_chunk_stream.h. Integers carry their C++ width as a bound in the
-- theorems that need it.
use rtsp_sdk.Common.{ℕ, List}

pub record RtmpMessage : Type 0 where
  pub csid : ℕ
  pub type_id : ℕ
  pub msg_stream_id : ℕ
  pub timestamp : ℕ
  pub payload : List ℕ

-- The mark of an extended timestamp, in the three bytes of the field.
abbrev pub ext_mark : ℕ
ext_mark = 0xff_ffff
