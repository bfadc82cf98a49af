-- ===== src/Rtmp/Amf0/Decode.antt =====
-- The decoder of src/rtmp/amf0_codec.cpp. `(data, len)` is the list of the bytes that are left. A
-- result is the value with the number of bytes consumed; the code's 0 is `failed`. What a failed
-- call has written to `*out` is dropped by every caller and is not kept. `out` is a fresh Value.
use rtsp_sdk.Common.{
  ℕ, zero, suc, ◌+◌, ◌*◌, not, List, [], ◌∷◌, ◌++◌, length, take, drop, ltb, ◌==◌, if◌then◌else◌,
}
use rtsp_sdk.Common.Bytes.{at, read_be16, read_be32, read_be64}
use rtsp_sdk.Rtmp.Amf0.Value.{
  Value, Props, Items, number, boolean, string, object, null, undefined, ecma_array, strict_array,
  no_props, prop, no_items, item,
}
use rtsp_sdk.Rtmp.Amf0.Encode.{
  marker_number, marker_boolean, marker_string, marker_object, marker_null, marker_undefined,
  marker_ecma_array, marker_object_end, marker_strict_arr,
}

-- `out_of_fuel` is no result of the code: the recursion was cut short.
pub data Result {ℓ} (A : Type ℓ) : Type ℓ where
  ok : A → Result A
  failed out_of_fuel : Result A

infixl 5 ◌>>=◌
abbrev pub ◌>>=◌ {ℓ κ} : {A : Type ℓ} {B : Type κ} → Result A → (A → Result B) → Result B
ok a >>= k = k a
failed >>= k = failed
out_of_fuel >>= k = out_of_fuel

unfoldable pub read_short_string : List ℕ → Result (List ℕ × ℕ)
read_short_string src =
    if ltb (length src) 2
    then failed
    else let s = read_be16 src in
      if ltb (length src) (2 + s) then failed else ok (take s (drop 2 src), 2 + s)

abbrev pub PropsParser : Type 0
PropsParser = List ℕ → Result (Props × ℕ)

abbrev pub ItemsParser : Type 0
ItemsParser = ℕ → List ℕ → Result (Items × ℕ)

abbrev pub ValueParser : Type 0
ValueParser = List ℕ → Result (Value × ℕ)

-- The switch of `parseValue`, with its two loops as arguments.
unfoldable pub parse_marked : PropsParser → ItemsParser → ValueParser
parse_marked props items src =
    let marker = at src 0 in
    let len = length src in
    if marker == marker_number
    then (if ltb len (1 + 8) then failed else ok (number (read_be64 (drop 1 src)), 1 + 8))
    else if marker == marker_boolean
    then (if ltb len (1 + 1) then failed else ok (boolean (not (at src 1 == 0)), 1 + 1))
    else if marker == marker_string
    then (do (s, n) ← read_short_string (drop 1 src); ok (string s, 1 + n))
    else if marker == marker_null
    then ok (null, 1)
    else if marker == marker_undefined
    then ok (undefined, 1)
    else if marker == marker_object
    then (do (ps, n) ← props (drop 1 src); ok (object ps, 1 + n))
    else if marker == marker_ecma_array
    then (if ltb len (1 + 4)
        then failed
        else (do (ps, n) ← props (drop 5 src); ok (ecma_array ps, 5 + n)))
    else if marker == marker_strict_arr
    then (if ltb len (1 + 4) then failed else (do
      (xs, n) ← items (read_be32 (drop 1 src)) (drop 5 src)
      ok (strict_array xs, 5 + n)))
    else failed

-- One round of the loop over the properties of an object or an ECMA array.
unfoldable pub parse_prop : ValueParser → PropsParser → PropsParser
parse_prop value props src =
    if ltb (length src) 2
    then failed
    else if read_be16 src == 0
    then (if ltb (length src) 3
        then failed
        else if at src 2 == marker_object_end
        then ok (no_props, 3)
        else failed)
    else (do
      (k, sn) ← read_short_string src
      (v, vn) ← value (drop sn src)
      (ps, n) ← props (drop vn (drop sn src))
      ok (prop k v ps, sn + (vn + n)))

-- One round of the loop over the elements of a strict array.
unfoldable pub parse_item :
    ValueParser → (List ℕ → Result (Items × ℕ)) → List ℕ → Result (Items × ℕ)
parse_item value items src = do
  (v, vn) ← value src
  (xs, n) ← items (drop vn src)
  ok (item v xs, vn + n)

unfoldable mutual
  pub parse_value_fuel : ℕ → List ℕ → Result (Value × ℕ)
  parse_value_fuel zero src = out_of_fuel
  parse_value_fuel (suc f) src =
      if ltb (length src) 1
      then failed
      else parse_marked (parse_props f) (λ count. parse_items f count) src

  pub parse_props : ℕ → List ℕ → Result (Props × ℕ)
  parse_props zero src = out_of_fuel
  parse_props (suc f) src = parse_prop (parse_value_fuel f) (parse_props f) src

  pub parse_items : ℕ → ℕ → List ℕ → Result (Items × ℕ)
  parse_items zero count src = out_of_fuel
  parse_items (suc f) zero src = ok (no_items, 0)
  parse_items (suc f) (suc count) src = parse_item (parse_value_fuel f) (parse_items f count) src

-- Every nested call has a byte less, and each round of a loop takes a byte at least.
unfoldable pub parse_value : List ℕ → Result (Value × ℕ)
parse_value src = parse_value_fuel (2 * length src + 1) src

-- The loop of `parseValues` at `off`, with the values read so far; it stops at the first failure.
unfoldable pub parse_values_loop : ℕ → List ℕ → ℕ → List Value → Result (List Value × ℕ)
parse_values_loop zero src off out = out_of_fuel
parse_values_loop (suc f) src off out =
    if ltb off (length src)
    then (elim (parse_value (drop off src)) [
      | ok (v, n) ↦ parse_values_loop f src (off + n) (out ++ (v ∷ []))
      | failed ↦ ok (out, off)
      | out_of_fuel ↦ out_of_fuel
    ])
    else ok (out, off)

unfoldable pub parse_values : List ℕ → Result (List Value × ℕ)
unfolding parse_values_loop
parse_values src = parse_values_loop (length src + 1) src 0 []
