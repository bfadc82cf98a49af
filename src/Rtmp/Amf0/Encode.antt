-- ===== src/Rtmp/Amf0/Encode.antt =====
-- The encoder of src/rtmp/amf0_codec.cpp. Each function gives the bytes that the call appends to
-- `out`.
use rtsp_sdk.Common.{ℕ, ◌<◌, Bool, List, [], ◌∷◌, ◌++◌, length, if◌then◌else◌, arith}
use rtsp_sdk.Common.Bits.{low_bits}
use rtsp_sdk.Common.Bytes.{be16, be32, be64}
use rtsp_sdk.Rtmp.Amf0.Value.{
  Value, Props, Items, number, boolean, string, object, null, undefined, ecma_array, strict_array,
  no_props, prop, no_items, item, count_props, count_items,
}

abbrev pub marker_number : ℕ
marker_number = 0x00

abbrev pub marker_boolean : ℕ
marker_boolean = 0x01

abbrev pub marker_string : ℕ
marker_string = 0x02

abbrev pub marker_object : ℕ
marker_object = 0x03

abbrev pub marker_null : ℕ
marker_null = 0x05

abbrev pub marker_undefined : ℕ
marker_undefined = 0x06

abbrev pub marker_ecma_array : ℕ
marker_ecma_array = 0x08

abbrev pub marker_object_end : ℕ
marker_object_end = 0x09

abbrev pub marker_strict_arr : ℕ
marker_strict_arr = 0x0a

-- The eight bytes of the double, the highest first.
unfoldable pub encode_number : ℕ → List ℕ
encode_number v = marker_number ∷ be64 v

unfoldable pub encode_bool : Bool → List ℕ
encode_bool v = marker_boolean ∷ (if v then 1 else 0) ∷ []

-- `static_cast<uint16_t>(v.size())`, then the characters.
unfoldable pub short_string : List ℕ → List ℕ
short_string s = be16 (low_bits (length s) 16) ++ s

unfoldable pub encode_string : List ℕ → List ℕ
unfolding short_string
encode_string v = marker_string ∷ short_string v

unfoldable mutual
  pub encode : Value → List ℕ
  encode (number n) = encode_number n
  encode (boolean b) = encode_bool b
  encode (string s) = encode_string s
  encode (object ps) = marker_object ∷ encode_props_then_end ps
  encode null = marker_null ∷ []
  encode undefined = marker_undefined ∷ []
  encode (ecma_array ps) =
      marker_ecma_array ∷ (be32 (low_bits (count_props ps) 32) ++ encode_props_then_end ps)
  encode (strict_array xs) =
      marker_strict_arr ∷ (be32 (low_bits (count_items xs) 32) ++ encode_items xs)

  pub encode_props_then_end : Props → List ℕ
  encode_props_then_end no_props = be16 0 ++ (marker_object_end ∷ [])
  encode_props_then_end (prop k v ps) = short_string k ++ (encode v ++ encode_props_then_end ps)

  pub encode_items : Items → List ℕ
  encode_items no_items = []
  encode_items (item v xs) = encode v ++ encode_items xs

pub length-encode_pos : (v : Value) → 0 < length (encode v)
unfolding encode encode_number encode_bool encode_string
length-encode_pos null = omega arith
length-encode_pos _ = omega arith
