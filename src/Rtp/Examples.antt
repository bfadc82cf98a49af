-- ===== src/Rtp/Examples.antt =====
-- The theorems on the packers and the sender at concrete inputs.
use rtsp_sdk.Common.{[], ◌∷◌, arith}
use rtsp_sdk.Rtp.Frame.{VideoFrame, h264, idr}
use rtsp_sdk.Rtp.Packer.{Packer, new_packer, pack_frame_h264}
use rtsp_sdk.Rtp.Packer.Packs.{Packs}
use rtsp_sdk.Rtp.Packer.Bounds.{pack_frame_h264-Packs}

abbrev small_mtu : Packer
small_mtu = record new_packer { mtu = 6; seq = 65535 }

abbrev frame : VideoFrame
frame = record {
  codec = h264;
  frame_type = idr;
  bytes = 0 ∷ 0 ∷ 1 ∷ 0x65 ∷ 1 ∷ 2 ∷ 3 ∷ 4 ∷ 5 ∷ 6 ∷ 7 ∷ 8 ∷ [];
  pts = 40;
  dts = 40;
  width = 640;
  height = 480;
  fps = 25;
}

pack_frame_h264-Packs_example : Packs small_mtu [] (pack_frame_h264 small_mtu frame)
pack_frame_h264-Packs_example = pack_frame_h264-Packs small_mtu frame (omega arith) (omega arith)
