-- ===== src/Rtmp/Flv/Tags.antt =====
-- The FLV video tags of src/rtmp/flv_tag_encoder.cpp. A time is the number of its 32 bits.
use Prim.Native.Nat.{bit_or}
use rtsp_sdk.Common.{
  ℕ, ◌≡◌, refl, Bool, true, false, List, [], ◌∷◌, ◌++◌, drop, if◌then◌else◌, arith,
}
use rtsp_sdk.Common.Bits.{shl, shr, low_bits}
use rtsp_sdk.Common.Bytes.{at, be24, read_be24, read_be24-be24}

unfoldable pub write_be24s : ℕ → List ℕ
write_be24s v = be24 (low_bits v 24)

-- `(is_key ? 1 : 2)`
unfoldable pub frame_kind : Bool → ℕ
frame_kind is_key = if is_key then 1 else 2

unfoldable pub h264_seq_header : List ℕ → List ℕ
h264_seq_header config = 0x17 ∷ 0 ∷ (write_be24s 0 ++ config)

unfoldable pub h264_frame : List ℕ → Bool → ℕ → List ℕ
h264_frame payload is_key time =
    bit_or (shl (frame_kind is_key) 4) 0x07 ∷ 1 ∷ (write_be24s time ++ payload)

unfoldable pub h265_legacy_seq_header : List ℕ → List ℕ
h265_legacy_seq_header config = 0x1C ∷ 0 ∷ (write_be24s 0 ++ config)

unfoldable pub h265_legacy_frame : List ℕ → Bool → ℕ → List ℕ
h265_legacy_frame payload is_key time =
    bit_or (shl (frame_kind is_key) 4) 0x0C ∷ 1 ∷ (write_be24s time ++ payload)

unfoldable pub ex_byte0 : Bool → ℕ → ℕ
ex_byte0 is_key packet_type =
    bit_or (bit_or 0x80 (shl (low_bits (frame_kind is_key) 3) 4)) (low_bits packet_type 4)

-- "hvc1"
unfoldable pub fourcc : List ℕ
fourcc = 104 ∷ 118 ∷ 99 ∷ 49 ∷ []

unfoldable pub h265_enhanced_seq_header : List ℕ → List ℕ
h265_enhanced_seq_header config = ex_byte0 true 0 ∷ (fourcc ++ config)

unfoldable pub h265_enhanced_frame : List ℕ → Bool → ℕ → List ℕ
h265_enhanced_frame payload is_key time =
    ex_byte0 is_key 1 ∷ (fourcc ++ (write_be24s time ++ payload))

-- The layout of a tag of FLV: frame type and codec, packet type, time and body.
pub record LegacyTag (tag : List ℕ) (is_key : Bool) (codec packet_type time : ℕ) (body : List ℕ)
    : Type 0 where
  pub kind : shr (at tag 0) 4 ≡ (if is_key then 1 else 2)
  pub codec_id : low_bits (at tag 0) 4 ≡ codec
  pub packet : at tag 1 ≡ packet_type
  pub composition : read_be24 (drop 2 tag) ≡ low_bits time 24
  pub content : drop 5 tag ≡ body

-- The layout of a tag of Enhanced RTMP: the flag, frame type and packet type, the FourCC and what
-- follows it.
pub record EnhancedTag (tag : List ℕ) (is_key : Bool) (packet_type : ℕ) (body : List ℕ)
    : Type 0 where
  pub extended : shr (at tag 0) 7 ≡ 1
  pub kind : low_bits (shr (at tag 0) 4) 3 ≡ (if is_key then 1 else 2)
  pub packet : low_bits (at tag 0) 4 ≡ packet_type
  pub content : drop 1 tag ≡ 104 ∷ 118 ∷ 99 ∷ 49 ∷ body

time-back : (time : ℕ) (rest : List ℕ) → read_be24 (write_be24s time ++ rest) ≡ low_bits time 24
unfolding write_be24s
time-back time rest = read_be24-be24 (low_bits time 24) rest (omega arith)

behind : (time : ℕ) (rest : List ℕ) → drop 3 (write_be24s time ++ rest) ≡ rest
unfolding write_be24s be24
behind time rest = refl

-- The tags of H.264 and the legacy tags of H.265: codec 7 and 12, packet type 0 and a key frame for
-- the header, packet type 1 for a frame, the time in 24 bits and the body.
pub legacy_tags_lem :
    (body : List ℕ) (is_key : Bool) (time : ℕ)
    → LegacyTag (h264_seq_header body) true 7 0 0 body
      × (LegacyTag (h264_frame body is_key time) is_key 7 1 time body
          × (LegacyTag (h265_legacy_seq_header body) true 12 0 0 body
              × LegacyTag (h265_legacy_frame body is_key time) is_key 12 1 time body))
unfolding h264_seq_header h264_frame h265_legacy_seq_header h265_legacy_frame frame_kind
legacy_tags_lem body true time = (
  record {
    kind = refl;
    codec_id = refl;
    packet = refl;
    composition = time-back 0 body;
    content = behind 0 body;
  },
  (
    record {
      kind = refl;
      codec_id = refl;
      packet = refl;
      composition = time-back time body;
      content = behind time body;
    },
    (
      record {
        kind = refl;
        codec_id = refl;
        packet = refl;
        composition = time-back 0 body;
        content = behind 0 body;
      },
      record {
        kind = refl;
        codec_id = refl;
        packet = refl;
        composition = time-back time body;
        content = behind time body;
      },
    ),
  ),
)
legacy_tags_lem body false time = (
  record {
    kind = refl;
    codec_id = refl;
    packet = refl;
    composition = time-back 0 body;
    content = behind 0 body;
  },
  (
    record {
      kind = refl;
      codec_id = refl;
      packet = refl;
      composition = time-back time body;
      content = behind time body;
    },
    (
      record {
        kind = refl;
        codec_id = refl;
        packet = refl;
        composition = time-back 0 body;
        content = behind 0 body;
      },
      record {
        kind = refl;
        codec_id = refl;
        packet = refl;
        composition = time-back time body;
        content = behind time body;
      },
    ),
  ),
)

-- The tags of Enhanced RTMP: packet type 0 and a key frame for the header, packet type 1 and the
-- time in 24 bits before the body for a frame.
pub enhanced_tags_lem :
    (body : List ℕ) (is_key : Bool) (time : ℕ)
    → EnhancedTag (h265_enhanced_seq_header body) true 0 body
      × EnhancedTag
          (h265_enhanced_frame body is_key time)
          is_key
          1
          (be24 (low_bits time 24) ++ body)
unfolding h265_enhanced_seq_header h265_enhanced_frame ex_byte0 fourcc write_be24s frame_kind
enhanced_tags_lem body true time = (
  record { extended = refl; kind = refl; packet = refl; content = refl },
  record { extended = refl; kind = refl; packet = refl; content = refl },
)
enhanced_tags_lem body false time = (
  record { extended = refl; kind = refl; packet = refl; content = refl },
  record { extended = refl; kind = refl; packet = refl; content = refl },
)
