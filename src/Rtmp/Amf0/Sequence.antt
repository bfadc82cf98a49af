-- ===== src/Rtmp/Amf0/Sequence.antt =====
-- `parseValues` of src/rtmp/amf0_codec.cpp: the values of a command message, one after the other.
use rtsp_sdk.Common.{
  ℕ, zero, suc, ◌+◌, ◌-◌, ◌≤◌, ◌<◌, ◌≡◌, refl, sym, ap, ◌∙◌, List, [], ◌∷◌, ◌++◌, length, drop,
  length-drop, drop-append, drop-drop, append_assoc, append-nil, All, All-drop, arith, ltb, lt→ltb,
  le→ltb, ltb→lt, Bool-cases, inl, inr,
}
use rtsp_sdk.Common.Bytes.{IsByte, lengths}
use rtsp_sdk.Rtmp.Amf0.Value.{Value, Fits}
use rtsp_sdk.Rtmp.Amf0.Encode.{encode, length-encode_pos}
use rtsp_sdk.Rtmp.Amf0.Decode.{ok, parse_values_loop, parse_values}
use rtsp_sdk.Rtmp.Amf0.RoundTrip.{parse_value-encode}
use rtsp_sdk.Rtmp.Amf0.Sound.{refuses, Ends, accepts, parse_value_sound}

-- The encodings of all values, one after the other.
abbrev pub encode_all : List Value → List ℕ
encode_all [] = []
encode_all (v ∷ vs) = encode v ++ encode_all vs

parse_values_loop-encode_all :
    (vs : List Value) (f : ℕ) (src : List ℕ) (off : ℕ) (out : List Value)
    → All Fits vs
    → drop off src ≡ encode_all vs
    → off ≤ length src
    → length src - off < f
    → parse_values_loop f src off out ≡ ok (out ++ vs, length src)
unfolding parse_values_loop
parse_values_loop-encode_all vs zero src off out fits e le h = absurd (omega arith)
parse_values_loop-encode_all [] (suc f) src off out fits e le h =
    let done : length src ≤ off = omega (arith, length-drop off src, ap length e) in
    rw (le→ltb off (length src) done, append-nil) (ap (λ n. ok (out, n)) (omega arith))
parse_values_loop-encode_all (v ∷ vs) (suc f) src off out fits e le h =
    let more : off < length src =
      omega (lengths, length-drop off src, ap length e, length-encode_pos v) in
    let next : drop (off + length (encode v)) src ≡ encode_all vs =
      sym (drop-drop off (length (encode v)) src)
      ∙ ap (drop (length (encode v))) e
      ∙ drop-append (encode v) (encode_all vs) (length (encode v)) refl in
    rw (lt→ltb off (length src) more, e, parse_value-encode v (encode_all vs) fits.0)
      (parse_values_loop-encode_all vs f src (off + length (encode v)) (out ++ (v ∷ [])) fits.1 next
          (omega (lengths, length-drop off src, ap length e)) (omega (lengths, length-encode_pos v))
        ∙ ap (λ vs. ok (vs, length src)) (append_assoc out (v ∷ []) vs))

-- One round of the loop, from what `parse_value` accepts at `off`.
parse_values_loop_good :
    (f : ℕ) (src : List ℕ) (off : ℕ) (out : List Value)
    → All IsByte src
    → off ≤ length src
    → length src - off < f
    → Ends (λ (vs, n). n ≤ length src) (parse_values_loop f src off out)
unfolding parse_values_loop
parse_values_loop_good zero src off out b le h = absurd (omega arith)
parse_values_loop_good (suc f) src off out b le h = elim (Bool-cases (ltb off (length src))) [
  | inr e ↦ rw e (accepts _ refl le)
  | inl e ↦ elim (parse_value_sound (drop off src) (All-drop IsByte off src b)) [
    | refuses bad ↦ rw (e, bad) (accepts _ refl le)
    | accepts (v, n) read good ↦
        rw (e, read)
          (parse_values_loop_good f src (off + n) (out ++ (v ∷ [])) b
            (omega (arith, length-drop off src, ltb→lt off (length src) e, good.1))
            (omega (arith, good.1, ltb→lt off (length src) e)))
  ]
]

-- On every input of bytes the loop of `parse_values` ends, at an offset within the input.
pub parse_values_sound :
    (src : List ℕ) → All IsByte src → Ends (λ (vs, n). n ≤ length src) (parse_values src)
unfolding parse_values
parse_values_sound src b = parse_values_loop_good _ src 0 [] b (omega arith) (omega arith)

-- A sequence of values that fit the format is read back in order, and all of the input is consumed.
pub parse_values-encode_all :
    (vs : List Value) → All Fits vs → parse_values (encode_all vs) ≡ ok (vs, length (encode_all vs))
unfolding parse_values
parse_values-encode_all vs fits =
    parse_values_loop-encode_all vs _ (encode_all vs) 0 [] fits refl (omega arith) (omega arith)
