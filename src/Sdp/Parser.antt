-- ===== src/Sdp/Parser.antt =====
-- `SdpParser` of src/rtsp-common/sdp.cpp. Of the entries of `media_infos_` the last one is the
-- current one; a line changes it with what its pattern finds.
use rtsp_sdk.Common.{
  ℕ, ◌+◌, Bool, false, not, ◌&&◌, ◌||◌, Option, none, some, List, [], ◌∷◌, ◌++◌, map, take, drop,
  ltb, leb, ◌==◌, if◌then◌else◌,
}
use rtsp_sdk.Text.Chars.{Text, codes, upper, is_space}
use rtsp_sdk.Text.Search.{starts_with, contains, find, is_empty}
use rtsp_sdk.Text.Lines.{crlf, lines, chomp}
use rtsp_sdk.Text.Numbers.{parse_uint32_safe, value}
use rtsp_sdk.Text.Patterns.{
  ◌>>=◌, literal, many, blanks, number, search, is_name_char, is_item_char, is_part_char,
}
use rtsp_sdk.Rtp.Frame.{CodecType, h264, h265}

pub record MediaInfo : Type 0 where
  pub codec : CodecType
  pub payload_name : Text
  pub payload_type : ℕ
  pub clock_rate : ℕ
  pub width : ℕ
  pub height : ℕ
  pub fps : ℕ
  pub sps : Text
  pub pps : Text
  pub vps : Text

unfoldable pub new_media : MediaInfo
new_media = record {
  codec = h264;
  payload_name = [];
  payload_type = 0;
  clock_rate = 0;
  width = 0;
  height = 0;
  fps = 0;
  sps = [];
  pps = [];
  vps = [];
}

-- `m=video\s+\d+\s+\S+\s+(\d+)`.
unfoldable pub media_pattern : Text → Option Text
media_pattern s = do
  a ← literal (codes "m=video") s
  b ← blanks a
  port ← number b
  c ← blanks port.1
  protocol ← many (λ x. not (is_space x)) c
  d ← blanks protocol.1
  payload ← number d
  some payload.0

-- `a=rtpmap:(\d+)\s+([A-Za-z0-9_-]+)/(\d+)`.
unfoldable pub rtpmap_pattern : Text → Option (Text × Text × Text)
rtpmap_pattern s = do
  a ← literal (codes "a=rtpmap:") s
  payload ← number a
  b ← blanks payload.1
  name ← many is_name_char b
  c ← literal (codes "/") name.1
  rate ← number c
  some (payload.0, name.0, rate.0)

-- `a=framesize:\d+\s+(\d+)-(\d+)`.
unfoldable pub framesize_pattern : Text → Option (Text × Text)
framesize_pattern s = do
  a ← literal (codes "a=framesize:") s
  payload ← number a
  b ← blanks payload.1
  w ← number b
  c ← literal (codes "-") w.1
  h ← number c
  some (w.0, h.0)

-- `a=cliprect:\d+,\d+,(\d+),(\d+)`.
unfoldable pub cliprect_pattern : Text → Option (Text × Text)
cliprect_pattern s = do
  a ← literal (codes "a=cliprect:") s
  x ← number a
  b ← literal (codes ",") x.1
  y ← number b
  c ← literal (codes ",") y.1
  h ← number c
  d ← literal (codes ",") h.1
  w ← number d
  some (h.0, w.0)

-- `sprop-parameter-sets=([^,;\s]+),([^;\s]+)`.
unfoldable pub h264_pattern : Text → Option (Text × Text)
h264_pattern s = do
  a ← literal (codes "sprop-parameter-sets=") s
  sps ← many is_item_char a
  b ← literal (codes ",") sps.1
  pps ← many is_part_char b
  some (sps.0, pps.0)

-- `sprop-vps=([^;\s]+)` and its like.
unfoldable pub set_pattern : Text → Text → Option Text
set_pattern key s = do a ← literal key s; v ← many is_part_char a; some v.0

abbrev pub fraction_of : Option (Text × Text) → Text
fraction_of none = []
fraction_of (some m) = m.0

-- `a=framerate:(\d+(?:\.\d+)?)`, in two parts.
unfoldable pub framerate_pattern : Text → Option (Text × Text)
framerate_pattern s = do
  a ← literal (codes "a=framerate:") s
  n ← number a
  some (n.0, fraction_of (literal (codes ".") n.1 >>= number))

unfoldable pub set_payload_type : Option ℕ → MediaInfo → MediaInfo
set_payload_type none m = m
set_payload_type (some v) m = if leb v 127 then record m { payload_type = v } else m

abbrev pub payload_in : Option Text → MediaInfo → MediaInfo
payload_in none m = m
payload_in (some t) m = set_payload_type (parse_uint32_safe t) m

-- A fresh entry at a line `m=video`.
unfoldable pub media_of : Text → MediaInfo
media_of line = payload_in (search media_pattern line) new_media

unfoldable pub codec_named : Text → CodecType → CodecType
codec_named name old =
    if contains (codes "264") (upper name)
    then h264
    else if contains (codes "265") (upper name) || contains (codes "HEVC") (upper name)
    then h265
    else old

unfoldable pub set_rtpmap : Option ℕ → Text → Option ℕ → MediaInfo → MediaInfo
set_rtpmap none name rate m = m
set_rtpmap (some pt) name none m = m
set_rtpmap (some pt) name (some rate) m =
    if leb pt 127
    then record m {
      payload_type = pt;
      payload_name = name;
      clock_rate = rate;
      codec = codec_named name m.codec;
    }
    else m

abbrev pub rtpmap_in : Option (Text × Text × Text) → MediaInfo → MediaInfo
rtpmap_in none m = m
rtpmap_in (some (pt, name, rate)) m =
    set_rtpmap (parse_uint32_safe pt) name (parse_uint32_safe rate) m

unfoldable pub set_size : Option ℕ → Option ℕ → MediaInfo → MediaInfo
set_size (some w) (some h) m = record m { width = w; height = h }
set_size _ _ m = m

abbrev pub size_in : Option (Text × Text) → MediaInfo → MediaInfo
size_in none m = m
size_in (some (w, h)) m = set_size (parse_uint32_safe w) (parse_uint32_safe h) m

-- Only where there is no size yet.
unfoldable pub set_clip : Option ℕ → Option ℕ → MediaInfo → MediaInfo
set_clip (some h) (some w) m = record m {
  width = if m.width == 0 then w else m.width;
  height = if m.height == 0 then h else m.height;
}
set_clip _ _ m = m

abbrev pub clip_in : Option (Text × Text) → MediaInfo → MediaInfo
clip_in none m = m
clip_in (some (h, w)) m = set_clip (parse_uint32_safe h) (parse_uint32_safe w) m

unfoldable pub has_other_than : ℕ → Text → Bool
has_other_than d [] = false
has_other_than d (c ∷ s) = not (c == d) || has_other_than d s

-- `std::stod`, above 0 and below 10 ^ 6, cut to its whole part.
unfoldable pub set_fps : Option ℕ → Text → MediaInfo → MediaInfo
set_fps none fraction m = m
set_fps (some v) fraction m =
    if ltb v 1_000_000 && (ltb 0 v || has_other_than b'0' fraction) then record m { fps = v } else m

abbrev pub fps_in : Option (Text × Text) → MediaInfo → MediaInfo
fps_in none m = m
fps_in (some (whole, fraction)) m = set_fps (value whole) fraction m

abbrev pub h264_in : Option (Text × Text) → MediaInfo → MediaInfo
h264_in none m = m
h264_in (some (sps, pps)) m = record m { sps = sps; pps = pps }

abbrev pub or_old : Option Text → Text → Text
or_old none old = old
or_old (some t) old = t

unfoldable pub fmtp_in : Text → MediaInfo → MediaInfo
fmtp_in line m =
    let n = h264_in (search h264_pattern line) m in
    record n {
      vps = or_old (search (set_pattern (codes "sprop-vps=")) line) n.vps;
      sps = or_old (search (set_pattern (codes "sprop-sps=")) line) n.sps;
      pps = or_old (search (set_pattern (codes "sprop-pps=")) line) n.pps;
    }

unfoldable pub read_attribute : Text → MediaInfo → MediaInfo
read_attribute line m =
    if starts_with (codes "a=rtpmap:") line
    then rtpmap_in (search rtpmap_pattern line) m
    else if starts_with (codes "a=framesize:") line
    then size_in (search framesize_pattern line) m
    else if starts_with (codes "a=cliprect:") line
    then clip_in (search cliprect_pattern line) m
    else if starts_with (codes "a=framerate:") line
    then fps_in (search framerate_pattern line) m
    else if starts_with (codes "a=fmtp:") line
    then fmtp_in line m
    else m

unfoldable pub on_last : (MediaInfo → MediaInfo) → List MediaInfo → List MediaInfo
on_last f [] = []
on_last f (m ∷ []) = f m ∷ []
on_last f (m ∷ (n ∷ ms)) = m ∷ on_last f (n ∷ ms)

unfoldable pub read_line : List MediaInfo → Text → List MediaInfo
read_line infos line =
    if starts_with (codes "m=video") line
    then infos ++ (media_of line ∷ [])
    else on_last (read_attribute line) infos

unfoldable pub read_lines : List MediaInfo → List Text → List MediaInfo
read_lines infos [] = infos
read_lines infos (line ∷ ls) = read_lines (read_line infos line) ls

-- `media_infos_` after `parse`, which is `true` unless it is empty.
unfoldable pub parse : Text → List MediaInfo
parse sdp = read_lines [] (map chomp (lines sdp))

-- `getVideoInfo`; without an entry, a fresh one.
unfoldable pub get_video_info : List MediaInfo → MediaInfo
get_video_info [] = new_media
get_video_info (m ∷ ms) = m

unfoldable pub has_audio : Text → Bool
has_audio sdp = contains (codes "m=audio") sdp

-- Up to the line end, or to the end of the text.
abbrev pub front_of : Text → Option ℕ → Text
front_of s none = s
front_of s (some i) = take i s

abbrev pub ends_with : ℕ → Text → Bool
ends_with d [] = false
ends_with d (c ∷ []) = c == d
ends_with d (c ∷ (e ∷ s)) = ends_with d (e ∷ s)

-- A control URL behind its base.
unfoldable pub resolve : Text → Text → Text
resolve base [] = []
resolve base (c ∷ control) =
    if c == b'*' || contains (codes "rtsp://") (c ∷ control)
    then c ∷ control
    else if not (is_empty base) && (not (ends_with b'/' base) && not (c == b'/'))
    then base ++ (b'/' ∷ c ∷ control)
    else base ++ (c ∷ control)

abbrev pub control_at : Text → Text → Option ℕ → Text
control_at sdp base none = base
control_at sdp base (some pos) =
    let s = drop (pos + 10) sdp in resolve base (front_of s (find crlf s))

unfoldable pub get_control_url : Text → Text → Text
get_control_url sdp base = control_at sdp base (find (codes "a=control:") sdp)
