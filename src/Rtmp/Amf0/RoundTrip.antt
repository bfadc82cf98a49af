-- ===== src/Rtmp/Amf0/RoundTrip.antt =====
-- What the encoder of src/rtmp/amf0_codec.cpp writes, its decoder reads back.
use rtsp_sdk.Common.{
  ℕ, zero, suc, ◌+◌, ◌*◌, ◌<◌, ◌^◌, ◌%◌, ◌≡◌, ◌≢◌, ◌==◌, if◌then◌else◌, refl, ap, sym, ◌∙◌, Bool,
  true, false, List, [], ◌∷◌, ◌++◌, length, drop, take-append, drop-append, append_assoc, arith,
  le→ltb,
}
use rtsp_sdk.Common.Bytes.{
  be16, be32, be64, read_be16, read_be16-be16, read_be32-be32, read_be64-be64, lengths, length-be32,
}
use rtsp_sdk.Rtmp.Amf0.Value.{
  Value, Props, Items, number, boolean, string, object, null, undefined, ecma_array, strict_array,
  no_props, prop, no_items, item, count_props, count_items, Fits, FitsProps, FitsItems,
}
use rtsp_sdk.Rtmp.Amf0.Encode.{
  encode_number, encode_bool, encode_string, short_string, encode, length-encode_pos,
  encode_props_then_end, encode_items,
}
use rtsp_sdk.Rtmp.Amf0.Decode.{
  Result, ok, read_short_string, parse_marked, parse_prop, parse_item, parse_value_fuel,
  parse_props, parse_items, parse_value, PropsParser, ItemsParser,
}

length-short_string : (s : List ℕ) → length (short_string s) ≡ 2 + length s
unfolding short_string be16
length-short_string s = omega arith

drop_two : (v : ℕ) (xs : List ℕ) → drop 2 (be16 v ++ xs) ≡ xs
unfolding be16
drop_two v xs = refl

read_short_string-short_string :
    (s rest : List ℕ)
    → length s < 2 ^ 16
    → read_short_string (short_string s ++ rest) ≡ ok (s, 2 + length s)
unfolding read_short_string short_string
read_short_string-short_string s rest h =
    let v = length s % 2 ^ 16 in
    let all = length (be16 v ++ (s ++ rest)) in
    let len : read_be16 (be16 v ++ (s ++ rest)) ≡ length s =
      read_be16-be16 v (s ++ rest) (omega arith) ∙ omega arith in
    rw (
      append_assoc,
      le→ltb all 2 (omega lengths),
      len,
      le→ltb all (2 + length s) (omega lengths),
      drop_two,
      take-append s rest (length s) refl,
    )

-- A number, at the switch.
parse_marked-number :
    (props : PropsParser) (items : ItemsParser) (n : ℕ) (rest : List ℕ)
    → n < 2 ^ 64
    → parse_marked props items (encode_number n ++ rest) ≡ ok (number n, 9)
unfolding parse_marked encode_number
parse_marked-number props items n rest h =
    rw (le→ltb (suc (length (be64 n ++ rest))) 9 (omega lengths), read_be64-be64 n rest h)

parse_marked-boolean :
    (props : PropsParser) (items : ItemsParser) (b : Bool) (rest : List ℕ)
    → parse_marked props items (encode_bool b ++ rest) ≡ ok (boolean b, 2)
unfolding parse_marked encode_bool
parse_marked-boolean props items true rest = rw (le→ltb (suc (suc (length rest))) 2 (omega arith))
parse_marked-boolean props items false rest = rw (le→ltb (suc (suc (length rest))) 2 (omega arith))

parse_marked-string :
    (props : PropsParser) (items : ItemsParser) (s rest : List ℕ)
    → length s < 2 ^ 16
    → parse_marked props items (encode_string s ++ rest) ≡ ok (string s, 3 + length s)
unfolding parse_marked encode_string
parse_marked-string props items s rest h =
    rw (read_short_string-short_string s rest h) (ap (λ k. ok (string s, k)) (omega arith))

parse_marked-object :
    (props : PropsParser) (items : ItemsParser) (ps : Props) (src : List ℕ) (n : ℕ)
    → props src ≡ ok (ps, n)
    → parse_marked props items (0x03 ∷ src) ≡ ok (object ps, 1 + n)
unfolding parse_marked
parse_marked-object props items ps src n e = rw e

parse_marked-ecma_array :
    (props : PropsParser) (items : ItemsParser) (ps : Props) (c : ℕ) (src : List ℕ) (n : ℕ)
    → props src ≡ ok (ps, n)
    → parse_marked props items (0x08 ∷ (be32 c ++ src)) ≡ ok (ecma_array ps, 5 + n)
unfolding parse_marked be32
parse_marked-ecma_array props items ps c src n e =
    rw (le→ltb (suc (suc (suc (suc (suc (length src)))))) 5 (omega arith), e)

parse_marked-strict_array :
    (props : PropsParser) (items : ItemsParser) (xs : Items) (c : ℕ) (src : List ℕ) (n : ℕ)
    → c < 2 ^ 32
    → items c src ≡ ok (xs, n)
    → parse_marked props items (0x0a ∷ (be32 c ++ src)) ≡ ok (strict_array xs, 5 + n)
unfolding parse_marked
parse_marked-strict_array props items xs c src n hc e = rw (
  le→ltb (suc (length (be32 c ++ src))) 5 (omega lengths),
  read_be32-be32 c src hc,
  drop-append (be32 c) src 4 (sym (length-be32 c)),
  e,
)

parse_prop_end :
    (value : List ℕ → Result (Value × ℕ)) (props : PropsParser) (rest : List ℕ)
    → parse_prop value props (be16 0 ++ 0x09 ∷ rest) ≡ ok (no_props, 3)
unfolding parse_prop be16 read_be16
parse_prop_end value props rest = rw (
  le→ltb (suc (suc (suc (length rest)))) 2 (omega arith),
  le→ltb (suc (suc (suc (length rest)))) 3 (omega arith),
)

read_be16-short_string :
    (k src : List ℕ) → length k < 2 ^ 16 → read_be16 (short_string k ++ src) ≡ length k
unfolding short_string
read_be16-short_string k src h =
    rw append_assoc (read_be16-be16 (length k % 2 ^ 16) (k ++ src) (omega arith) ∙ omega arith)

ne→== : (a b : ℕ) → a ≢ b → (a == b) ≡ false
ne→== a b h = ground arith

parse_prop_step :
    (value : List ℕ → Result (Value × ℕ)) (props : PropsParser) (k src : List ℕ) (v : Value)
    (vn : ℕ) (ps : Props) (n : ℕ)
    → 0 < length k
    → length k < 2 ^ 16
    → value src ≡ ok (v, vn)
    → props (drop vn src) ≡ ok (ps, n)
    → parse_prop value props (short_string k ++ src) ≡ ok (prop k v ps, (2 + length k) + (vn + n))
unfolding parse_prop
parse_prop_step value props k src v vn ps n pos h ev eps = rw (
  le→ltb (length (short_string k ++ src)) 2 (omega (lengths, length-short_string k)),
  read_be16-short_string k src h,
  ne→== (length k) 0 (omega arith),
  read_short_string-short_string k src h,
  drop-append (short_string k) src (2 + length k) (sym (length-short_string k)),
  ev,
  eps,
)

-- A parser reads `a` off its encoding, whatever follows, once the fuel is above the bound.
abbrev Reads {ℓ} : {A : Type ℓ} → (ℕ → List ℕ → Result (A × ℕ)) → ℕ → List ℕ → A → Type ℓ
Reads p bound bytes a =
    (f : ℕ) (rest : List ℕ) → bound < f → p f (bytes ++ rest) ≡ ok (a, length bytes)

abbrev ReadsValue : Value → Type 0
ReadsValue v = Fits v → Reads parse_value_fuel (2 * length (encode v)) (encode v) v

abbrev ReadsProps : Props → Type 0
ReadsProps ps =
    FitsProps ps
    → let bytes = encode_props_then_end ps in Reads parse_props (suc (2 * length bytes)) bytes ps

abbrev ReadsItems : Items → Type 0
ReadsItems xs =
    FitsItems xs
    → let bytes = encode_items xs in
      Reads (λ f src. parse_items f (count_items xs) src) (suc (2 * length bytes)) bytes xs

-- A value is read by the switch, with one unit of fuel less for what it contains.
marked-Reads :
    (v : Value) (b : ℕ) (bs : List ℕ) (n : ℕ)
    → n ≡ length (b ∷ bs)
    → ((g : ℕ) (rest : List ℕ)
        → 2 * length (b ∷ bs) < suc g
        → parse_marked (parse_props g) (λ c. parse_items g c) (b ∷ (bs ++ rest)) ≡ ok (v, n))
    → Reads parse_value_fuel (2 * length (b ∷ bs)) (b ∷ bs) v
unfolding parse_value_fuel
marked-Reads v b bs n e k zero rest h = absurd (omega arith)
marked-Reads v b bs n e k (suc f) rest h =
    rw (le→ltb (suc (length (bs ++ rest))) 1 (omega arith), ← e) (k f rest h)

object-Reads :
    (ps : Props)
    → Reads parse_props (suc (2 * length (encode_props_then_end ps))) (encode_props_then_end ps) ps
    → Reads parse_value_fuel (2 * length (encode (object ps))) (encode (object ps)) (object ps)
unfolding encode
object-Reads ps ih =
    marked-Reads (object ps) 0x03 (encode_props_then_end ps) _ (omega arith)
      λ g rest h. parse_marked-object _ _ ps _ _ (ih g rest (omega arith))

ecma_array-Reads :
    (ps : Props)
    → Reads parse_props (suc (2 * length (encode_props_then_end ps))) (encode_props_then_end ps) ps
    → Reads parse_value_fuel
        (2 * length (encode (ecma_array ps)))
        (encode (ecma_array ps))
        (ecma_array ps)
unfolding encode
ecma_array-Reads ps ih =
    let c = count_props ps % 2 ^ 32 in
    let bytes = encode_props_then_end ps in
    marked-Reads (ecma_array ps) 0x08 (be32 c ++ bytes) (5 + length bytes) (omega lengths)
      λ g rest h.
        rw (append_assoc (be32 c) bytes rest)
          (parse_marked-ecma_array _ _ ps c _ _ (ih g rest (omega lengths)))

strict_array-Reads :
    (xs : Items)
    → count_items xs < 2 ^ 32
    → Reads
        (λ f src. parse_items f (count_items xs) src)
        (suc (2 * length (encode_items xs)))
        (encode_items xs)
        xs
    → Reads parse_value_fuel
        (2 * length (encode (strict_array xs)))
        (encode (strict_array xs))
        (strict_array xs)
unfolding encode
strict_array-Reads xs hc ih =
    let c = count_items xs % 2 ^ 32 in
    let bytes = encode_items xs in
    let e : c ≡ count_items xs = omega arith in
    marked-Reads (strict_array xs) 0x0a (be32 c ++ bytes) (5 + length bytes) (omega lengths)
      λ g rest h.
        rw (append_assoc (be32 c) bytes rest)
          (parse_marked-strict_array _ _ xs c _ _ (omega arith) (rw e (ih g rest (omega lengths))))

prop-Reads :
    (k : List ℕ) (w : Value) (ps : Props)
    → 0 < length k
    → length k < 2 ^ 16
    → Reads parse_value_fuel (2 * length (encode w)) (encode w) w
    → Reads parse_props (suc (2 * length (encode_props_then_end ps))) (encode_props_then_end ps) ps
    → let bytes = encode_props_then_end (prop k w ps) in
      Reads parse_props (suc (2 * length bytes)) bytes (prop k w ps)
unfolding parse_props encode_props_then_end
prop-Reads k w ps pos hk ih ihs zero rest h = absurd (omega arith)
prop-Reads k w ps pos hk ih ihs (suc f) rest h =
    let tail = encode_props_then_end ps in
    let drops = drop-append (encode w) (tail ++ rest) (length (encode w)) refl in
    rw (append_assoc (short_string k) (encode w ++ tail) rest, append_assoc (encode w) tail rest)
      (parse_prop_step (parse_value_fuel f) (parse_props f) k (encode w ++ (tail ++ rest)) w
          (length (encode w)) ps (length tail) pos hk
          (ih f (tail ++ rest) (omega (lengths, length-short_string k)))
          (rw drops (ihs f rest (omega (lengths, length-short_string k))))
        ∙ ap (λ n. ok (prop k w ps, n)) (omega (lengths, length-short_string k)))

item-Reads :
    (w : Value) (xs : Items)
    → Reads parse_value_fuel (2 * length (encode w)) (encode w) w
    → Reads
        (λ f src. parse_items f (count_items xs) src)
        (suc (2 * length (encode_items xs)))
        (encode_items xs)
        xs
    → let bytes = encode_items (item w xs) in
      Reads
        (λ f src. parse_items f (count_items (item w xs)) src)
        (suc (2 * length bytes))
        bytes
        (item w xs)
unfolding parse_items encode_items count_items parse_item
item-Reads w xs ih ihs zero rest h = absurd (omega arith)
item-Reads w xs ih ihs (suc f) rest h =
    let tail = encode_items xs in
    rw
      (
        append_assoc (encode w) tail rest,
        ih f (tail ++ rest) (omega lengths),
        drop-append (encode w) (tail ++ rest) (length (encode w)) refl,
        ihs f rest (omega (lengths, length-encode_pos w)),
      )
      (ap (λ n. ok (item w xs, n)) (omega lengths))

no_props-Reads : Reads parse_props 7 (encode_props_then_end no_props) no_props
unfolding parse_props encode_props_then_end
no_props-Reads zero rest h = absurd (omega arith)
no_props-Reads (suc f) rest h =
    rw (append_assoc (be16 0) (0x09 ∷ []) rest)
      (parse_prop_end _ _ rest ∙ ap (λ n. ok (no_props, n)) (omega lengths))

no_items-Reads : Reads (λ f src. parse_items f 0 src) 1 (encode_items no_items) no_items
unfolding parse_items encode_items
no_items-Reads zero rest h = absurd (omega arith)
no_items-Reads (suc f) rest h = refl

all_read : (v : Value) → ReadsValue v
unfolding encode Fits count_items be16
all_read v = elim v as ReadsValue ReadsProps ReadsItems [
  | number n ↦ λ fits.
      unfold encode_number in
      marked-Reads (number n) 0x00 (be64 n) 9 (omega lengths)
        (λ g rest h. parse_marked-number _ _ n rest fits)
  | boolean b ↦ λ fits.
      unfold encode_bool in
      marked-Reads (boolean b) 0x01 ((if b then 1 else 0) ∷ []) 2 (omega arith)
        (λ g rest h. parse_marked-boolean _ _ b rest)
  | string s ↦ λ fits.
      unfold encode_string in
      marked-Reads (string s) 0x02 (short_string s) (3 + length s)
        (omega (arith, length-short_string s)) (λ g rest h. parse_marked-string _ _ s rest fits)
  | object (ps → ih) ↦ λ fits. object-Reads ps (ih fits)
  | null ↦ λ fits. marked-Reads null 0x05 [] 1 refl (λ g rest h. unfold parse_marked in refl)
  | undefined ↦
      λ fits. marked-Reads undefined 0x06 [] 1 refl (λ g rest h. unfold parse_marked in refl)
  | ecma_array (ps → ih) ↦ λ fits. ecma_array-Reads ps (ih fits)
  | strict_array (xs → ih) ↦ λ fits. strict_array-Reads xs fits.0 (ih fits.1)
  | no_props ↦ λ fits. no_props-Reads
  | prop k (w → ih) (ps → ihs) ↦ λ fits. prop-Reads k w ps fits.0 fits.1 (ih fits.2) (ihs fits.3)
  | no_items ↦ λ fits. no_items-Reads
  | item (w → ih) (xs → ihs) ↦ λ fits. item-Reads w xs (ih fits.0) (ihs fits.1)
]

-- A value that fits the format, encoded in front of any bytes, is decoded to itself, and the count
-- of bytes consumed is the length of its encoding.
pub parse_value-encode :
    (v : Value) (rest : List ℕ)
    → Fits v
    → parse_value (encode v ++ rest) ≡ ok (v, length (encode v))
unfolding parse_value
parse_value-encode v rest fits = all_read v fits _ rest (omega lengths)
