-- ===== src/Server/Paths/Extract.antt =====
-- The parameter sets that the server takes from the frames of a path: `forEachAnnexBNalu`,
-- `assignIfChanged`, `autoExtractH264ParameterSets`, `autoExtractH265ParameterSets`, `pushH264Data`
-- and `pushH265Data` of src/server/rtsp_server.cpp.
use rtsp_sdk.Common.{
  ℕ, zero, suc, ◌+◌, ◌-◌, Bool, true, false, ◌&&◌, ◌||◌, Option, none, some, List, [], ◌∷◌, length,
  take, drop, ltb, leb, ◌==◌, if◌then◌else◌,
}
use rtsp_sdk.Common.Bits.{low_bits, shr}
use rtsp_sdk.Common.Bytes.{at}
use rtsp_sdk.Text.Chars.{Text}
use rtsp_sdk.Text.Search.{same, is_empty}
use rtsp_sdk.Text.Dict.{lookup}
use rtsp_sdk.Rtp.Frame.{VideoFrame, CodecType, h264, h265, FrameType, idr}
use rtsp_sdk.Server.Config.{PathConfig}
use rtsp_sdk.Server.Paths.{MediaPath, Server, broadcast_frame, count_frame}

-- The length of the start code at the front of what is left, more than three bytes; 0 without one.
unfoldable pub code_here : List ℕ → ℕ
code_here s =
    if leb (length s) 3
    then 0
    else if at s 0 == 0 && (at s 1 == 0 && (at s 2 == 0 && at s 3 == 1))
    then 4
    else if at s 0 == 0 && (at s 1 == 0 && at s 2 == 1)
    then 3
    else 0

abbrev pub note_start : ℕ → ℕ → List (ℕ × ℕ) → List (ℕ × ℕ)
note_start zero i starts = starts
note_start (suc n) i starts = (i, i + suc n) ∷ starts

-- Where start codes begin and end, from `i` on, when `skip` bytes belong to the last one.
unfoldable pub starts_from : ℕ → ℕ → List ℕ → List (ℕ × ℕ)
starts_from i skip [] = []
starts_from i (suc skip) (c ∷ s) = starts_from (suc i) skip s
starts_from i zero (c ∷ s) =
    let n = code_here (c ∷ s) in note_start n i (starts_from (suc i) (n - 1) s)

abbrev pub span : List ℕ → ℕ → ℕ → List (List ℕ) → List (List ℕ)
span bytes from to units = if ltb from to then take (to - from) (drop from bytes) ∷ units else units

-- Each unit ends at the next start code, or with the bytes; empty ones are left out.
unfoldable pub spans : List ℕ → List (ℕ × ℕ) → List (List ℕ)
spans bytes [] = []
spans bytes ((i, j) ∷ []) = span bytes j (length bytes) []
spans bytes ((i, j) ∷ ((k, l) ∷ starts)) = span bytes j k (spans bytes ((k, l) ∷ starts))

abbrev pub units_at : List ℕ → List (ℕ × ℕ) → List (List ℕ)
units_at bytes [] = bytes ∷ []
units_at bytes (s ∷ starts) = spans bytes (s ∷ starts)

-- The units that `fn` is called with.
unfoldable pub annex_b_units : List ℕ → List (List ℕ)
annex_b_units [] = []
annex_b_units (c ∷ bytes) = units_at (c ∷ bytes) (starts_from 0 0 (c ∷ bytes))

-- The set after `assignIfChanged`, and whether it changed.
unfoldable pub assign_if_changed : List ℕ → List ℕ → List ℕ × Bool
assign_if_changed dst src = if is_empty src || same dst src then (dst, false) else (src, true)

unfoldable pub take_h264_unit : PathConfig → List ℕ → PathConfig × Bool
take_h264_unit config nalu =
    let kind = low_bits (at nalu 0) 5 in
    if is_empty nalu
    then (config, false)
    else if kind == 7
    then (let (v, b) = assign_if_changed config.sps nalu in (record config { sps = v }, b))
    else if kind == 8
    then (let (v, b) = assign_if_changed config.pps nalu in (record config { pps = v }, b))
    else (config, false)

unfoldable pub take_h265_unit : PathConfig → List ℕ → PathConfig × Bool
take_h265_unit config nalu =
    let kind = low_bits (shr (at nalu 0) 1) 6 in
    if ltb (length nalu) 2
    then (config, false)
    else if kind == 32
    then (let (v, b) = assign_if_changed config.vps nalu in (record config { vps = v }, b))
    else if kind == 33
    then (let (v, b) = assign_if_changed config.sps nalu in (record config { sps = v }, b))
    else if kind == 34
    then (let (v, b) = assign_if_changed config.pps nalu in (record config { pps = v }, b))
    else (config, false)

unfoldable pub take_units :
    (PathConfig → List ℕ → PathConfig × Bool)
    → PathConfig
    → List (List ℕ)
    → Bool
    → PathConfig × Bool
take_units unit config [] updated = (config, updated)
take_units unit config (nalu ∷ units) updated =
    let (c, b) = unit config nalu in take_units unit c units (b || updated)

unfoldable pub auto_extract_h264 : PathConfig → List ℕ → PathConfig × Bool
auto_extract_h264 config bytes = take_units take_h264_unit config (annex_b_units bytes) false

unfoldable pub auto_extract_h265 : PathConfig → List ℕ → PathConfig × Bool
auto_extract_h265 config bytes = take_units take_h265_unit config (annex_b_units bytes) false

abbrev pub frame_of : CodecType → List ℕ → ℕ → Bool → VideoFrame
frame_of codec bytes pts is_key = record {
  codec = codec;
  frame_type = if is_key then idr else FrameType.p;
  bytes = bytes;
  pts = pts;
  dts = pts;
  width = 0;
  height = 0;
  fps = 0;
}

-- The path with its configuration refreshed, if the frame is a key frame or a set is missing.
unfoldable pub refresh_h264 : PathConfig → List ℕ → Bool → PathConfig
refresh_h264 config bytes is_key =
    if is_key || (is_empty config.sps || is_empty config.pps)
    then (auto_extract_h264 config bytes).0
    else config

unfoldable pub refresh_h265 : PathConfig → List ℕ → Bool → PathConfig
refresh_h265 config bytes is_key =
    if is_key || (is_empty config.vps || (is_empty config.sps || is_empty config.pps))
    then (auto_extract_h265 config bytes).0
    else config

unfoldable pub push_data_at :
    (PathConfig → List ℕ → Bool → PathConfig)
    → CodecType
    → Text
    → List ℕ
    → ℕ
    → Bool
    → Option MediaPath
    → Server
    → Server × Bool
push_data_at refresh codec p bytes pts is_key none w = (w, false)
push_data_at refresh codec p bytes pts is_key (some m) w = (
  count_frame (
      broadcast_frame p (record m { config = refresh m.config bytes is_key })
        (frame_of codec bytes pts is_key) w),
  true,
)

unfoldable pub push_h264_data : Text → List ℕ → ℕ → Bool → Server → Server × Bool
push_h264_data p bytes pts is_key w =
    push_data_at refresh_h264 h264 p bytes pts is_key (lookup p w.paths) w

unfoldable pub push_h265_data : Text → List ℕ → ℕ → Bool → Server → Server × Bool
push_h265_data p bytes pts is_key w =
    push_data_at refresh_h265 h265 p bytes pts is_key (lookup p w.paths) w
