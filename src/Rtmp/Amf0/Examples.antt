-- ===== src/Rtmp/Amf0/Examples.antt =====
-- Concrete runs of the AMF0 codec, and its theorems at concrete inputs.
use rtsp_sdk.Common.{ℕ, ◌≡◌, true, List, [], ◌∷◌, ◌++◌, length, arith, All}
use rtsp_sdk.Common.Bytes.{IsByte}
use rtsp_sdk.Rtmp.Amf0.Value.{
  Value, boolean, string, object, null, strict_array, no_props, prop, no_items, item, Fits,
}
use rtsp_sdk.Rtmp.Amf0.Encode.{encode}
use rtsp_sdk.Rtmp.Amf0.Decode.{ok, parse_value, parse_values}
use rtsp_sdk.Rtmp.Amf0.RoundTrip.{parse_value-encode}
use rtsp_sdk.Rtmp.Amf0.Sound.{Ends, GoodValue, parse_value_sound}
use rtsp_sdk.Rtmp.Amf0.Sequence.{encode_all, parse_values-encode_all}

-- {"app": "x", "v": [true, null]}
abbrev command : Value
command = object (
    prop (b'a' ∷ b'p' ∷ b'p' ∷ []) (string (b'x' ∷ []))
      (prop (b'v' ∷ []) (strict_array (item (boolean true) (item null no_items))) no_props))

command-Fits : Fits command
unfolding Fits
command-Fits = omega arith

parse_value-encode_example :
    parse_value (encode command ++ 7 ∷ []) ≡ ok (command, length (encode command))
parse_value-encode_example = parse_value-encode command (7 ∷ []) command-Fits

-- An ECMA array that announces 9 entries and holds none.
abbrev padded : List ℕ
padded = 0x08 ∷ 0 ∷ 0 ∷ 0 ∷ 9 ∷ 0 ∷ 0 ∷ 9 ∷ []

padded_bytes : All IsByte padded
padded_bytes = omega arith

parse_value_sound_example : Ends (GoodValue padded) (parse_value padded)
parse_value_sound_example = parse_value_sound padded padded_bytes

parse_values-encode_all_example :
    parse_values (encode_all (null ∷ command ∷ []))
    ≡ ok (null ∷ command ∷ [], length (encode_all (null ∷ command ∷ [])))
unfolding Fits
parse_values-encode_all_example = parse_values-encode_all (null ∷ command ∷ []) (omega arith)
