-- ===== src/Text/Base64.antt =====
-- `base64Encode` and `base64Decode` of src/rtsp-common/common.cpp. A char is its code.
use rtsp_sdk.Common.{
  ℕ, ◌+◌, ◌-◌, ◌<◌, ◌≡◌, refl, ap, ◌∙◌, ◌&&◌, Option, none, some, List, [], ◌∷◌, ◌++◌, append_assoc,
  length, take, All, leb, ◌==◌, if◌then◌else◌, arith,
}
use rtsp_sdk.Common.Bits.{shl, shr, low_bits, agree, by_table}
use rtsp_sdk.Common.Bytes.{at, IsByte}

unfoldable pub base64_chars : List ℕ
base64_chars =
    65 ∷ 66 ∷ 67 ∷ 68 ∷ 69 ∷ 70 ∷ 71 ∷ 72 ∷ 73 ∷ 74 ∷ 75 ∷ 76 ∷ 77 ∷ 78 ∷ 79 ∷ 80 ∷ 81 ∷ 82 ∷ 83
    ∷ 84 ∷ 85 ∷ 86 ∷ 87 ∷ 88 ∷ 89 ∷ 90 ∷ 97 ∷ 98 ∷ 99 ∷ 100 ∷ 101 ∷ 102 ∷ 103 ∷ 104 ∷ 105 ∷ 106
    ∷ 107 ∷ 108 ∷ 109 ∷ 110 ∷ 111 ∷ 112 ∷ 113 ∷ 114 ∷ 115 ∷ 116 ∷ 117 ∷ 118 ∷ 119 ∷ 120 ∷ 121 ∷ 122
    ∷ 48 ∷ 49 ∷ 50 ∷ 51 ∷ 52 ∷ 53 ∷ 54 ∷ 55 ∷ 56 ∷ 57 ∷ 43 ∷ 47 ∷ []

-- The char of the six bits at `k`.
unfoldable pub char_at : ℕ → ℕ → ℕ
char_at triple k = at base64_chars (low_bits (shr triple k) 6)

abbrev pub triple_of : ℕ → ℕ → ℕ → ℕ
triple_of a b c = shl a 16 + shl b 8 + c

unfoldable pub base64_encode : List ℕ → List ℕ
base64_encode [] = []
base64_encode (a ∷ []) = char_at (triple_of a 0 0) 18 ∷ char_at (triple_of a 0 0) 12 ∷ 61 ∷ 61 ∷ []
base64_encode (a ∷ (b ∷ [])) =
    char_at (triple_of a b 0) 18
    ∷ char_at (triple_of a b 0) 12
    ∷ char_at (triple_of a b 0) 6
    ∷ 61
    ∷ []
base64_encode (a ∷ (b ∷ (c ∷ rest))) =
    char_at (triple_of a b c) 18
    ∷ char_at (triple_of a b c) 12
    ∷ char_at (triple_of a b c) 6
    ∷ char_at (triple_of a b c) 0
    ∷ base64_encode rest

-- `none` is -1.
unfoldable pub decode_char : ℕ → Option ℕ
decode_char c =
    if leb 65 c && leb c 90
    then some (c - 65)
    else if leb 97 c && leb c 122
    then some (c - 97 + 26)
    else if leb 48 c && leb c 57
    then some (c - 48 + 52)
    else if c == 43
    then some 62
    else if c == 47
    then some 63
    else none

-- The three bytes of `char_array_4`.
unfoldable pub three_bytes : List ℕ → List ℕ
three_bytes quad =
    low_bits (shl (at quad 0) 2 + low_bits (shr (at quad 1) 4) 2) 8
    ∷ low_bits (shl (low_bits (at quad 1) 4) 4 + low_bits (shr (at quad 2) 2) 4) 8
    ∷ low_bits (shl (low_bits (at quad 2) 2) 6 + at quad 3) 8
    ∷ []

-- Behind the loop, with the first `j` entries of `char_array_4`; the others are zeros.
unfoldable pub flush : List ℕ → List ℕ → List ℕ
flush quad decoded = decoded ++ take (length quad - 1) (three_bytes quad)

unfoldable pub next_quad : List ℕ → ℕ → List ℕ
next_quad quad v = if length quad == 3 then [] else quad ++ (v ∷ [])

unfoldable pub next_decoded : List ℕ → ℕ → List ℕ → List ℕ
next_decoded quad v decoded =
    if length quad == 3 then decoded ++ three_bytes (quad ++ (v ∷ [])) else decoded

-- The char that the loop goes on with; `none` ends it.
unfoldable pub read_char : ℕ → Option ℕ
read_char c = if c == 61 then none else decode_char c

unfoldable pub decode_loop : List ℕ → List ℕ → List ℕ → List ℕ
decode_loop [] quad decoded = flush quad decoded
decode_loop (c ∷ str) quad decoded = elim (read_char c) [
  | none ↦ flush quad decoded
  | some v ↦ decode_loop str (next_quad quad v) (next_decoded quad v decoded)
]

unfoldable pub base64_decode : List ℕ → List ℕ
base64_decode str = decode_loop str [] []

-- The codes of the table decode again, and none of them is the padding.
value : Option ℕ → ℕ
value none = 64
value (some v) = v

value-some : (o : Option ℕ) (v : ℕ) → v < 64 → value o ≡ v → o ≡ some v
unfolding value
value-some none v h e = absurd (omega arith)
value-some (some w) v h e = ap some e

all-values : (w : ℕ) → w < 64 → value (read_char (at base64_chars w)) ≡ w
unfolding value read_char base64_chars decode_char agree
all-values w h = by_table (λ x. value (read_char (at base64_chars x))) (λ x. x) 64 refl w h

read-table : (v : ℕ) → v < 64 → read_char (at base64_chars v) ≡ some v
read-table v h = value-some (read_char (at base64_chars v)) v h (all-values v h)

loop-step :
    (v : ℕ) (str quad decoded : List ℕ)
    → v < 64
    → decode_loop (at base64_chars v ∷ str) quad decoded
      ≡ decode_loop str (next_quad quad v) (next_decoded quad v decoded)
unfolding decode_loop
loop-step v str quad decoded h = rw (read-table v h, decode_loop) refl

loop-padding :
    (str quad decoded : List ℕ) → decode_loop (61 ∷ str) quad decoded ≡ flush quad decoded
unfolding decode_loop read_char
loop-padding str quad decoded = refl

-- A whole group of four.
group :
    (s0 s1 s2 s3 : ℕ) (str decoded : List ℕ)
    → s0 < 64
    → s1 < 64
    → s2 < 64
    → s3 < 64
    → decode_loop
        (at base64_chars s0
          ∷ (at base64_chars s1 ∷ (at base64_chars s2 ∷ (at base64_chars s3 ∷ str))))
        []
        decoded
      ≡ decode_loop str [] (decoded ++ three_bytes (s0 ∷ s1 ∷ s2 ∷ s3 ∷ []))
unfolding next_quad next_decoded
group s0 s1 s2 s3 str decoded h0 h1 h2 h3 =
    loop-step s0 _ [] decoded h0
    ∙ (loop-step s1 _ (s0 ∷ []) decoded h1
        ∙ (loop-step s2 _ (s0 ∷ s1 ∷ []) decoded h2
            ∙ loop-step s3 str (s0 ∷ s1 ∷ s2 ∷ []) decoded h3))

-- A last group of three and one of two.
group_of_three :
    (s0 s1 s2 : ℕ) (decoded : List ℕ)
    → s0 < 64
    → s1 < 64
    → s2 < 64
    → decode_loop
        (at base64_chars s0 ∷ (at base64_chars s1 ∷ (at base64_chars s2 ∷ (61 ∷ []))))
        []
        decoded
      ≡ flush (s0 ∷ s1 ∷ s2 ∷ []) decoded
unfolding next_quad next_decoded
group_of_three s0 s1 s2 decoded h0 h1 h2 =
    loop-step s0 _ [] decoded h0
    ∙ (loop-step s1 _ (s0 ∷ []) decoded h1
        ∙ (loop-step s2 _ (s0 ∷ s1 ∷ []) decoded h2 ∙ loop-padding [] (s0 ∷ s1 ∷ s2 ∷ []) decoded))

group_of_two :
    (s0 s1 : ℕ) (decoded : List ℕ)
    → s0 < 64
    → s1 < 64
    → decode_loop (at base64_chars s0 ∷ (at base64_chars s1 ∷ (61 ∷ (61 ∷ [])))) [] decoded
      ≡ flush (s0 ∷ s1 ∷ []) decoded
unfolding next_quad next_decoded
group_of_two s0 s1 decoded h0 h1 =
    loop-step s0 _ [] decoded h0
    ∙ (loop-step s1 _ (s0 ∷ []) decoded h1 ∙ loop-padding (61 ∷ []) (s0 ∷ s1 ∷ []) decoded)

abbrev six : ℕ → ℕ → ℕ
six triple k = low_bits (shr triple k) 6

six-lt : (triple k : ℕ) → six triple k < 64
six-lt triple k = let v = shr triple k in omega arith

decode-encode_onto :
    (xs decoded : List ℕ)
    → All IsByte xs
    → decode_loop (base64_encode xs) [] decoded ≡ decoded ++ xs
unfolding base64_encode char_at flush three_bytes
decode-encode_onto [] decoded h = nothing decoded
  where
    nothing : (d : List ℕ) → decode_loop [] [] d ≡ d ++ []
    nothing d = unfold decode_loop in refl
decode-encode_onto (a ∷ []) decoded h =
    let t = triple_of a 0 0 in
    let e : low_bits (shl (six t 18) 2 + low_bits (shr (six t 12) 4) 2) 8 ≡ a =
      omega (arith, h.0) in
    group_of_two (six t 18) (six t 12) decoded (six-lt t 18) (six-lt t 12) ∙ rw e refl
decode-encode_onto (a ∷ (b ∷ [])) decoded h =
    let t = triple_of a b 0 in
    let e : low_bits (shl (six t 18) 2 + low_bits (shr (six t 12) 4) 2) 8 ≡ a =
      omega (arith, h.0, h.1.0) in
    let e' : low_bits (shl (low_bits (six t 12) 4) 4 + low_bits (shr (six t 6) 2) 4) 8 ≡ b =
      omega (arith, h.0, h.1.0) in
    group_of_three (six t 18) (six t 12) (six t 6) decoded (six-lt t 18) (six-lt t 12) (six-lt t 6)
    ∙ rw (e, e') refl
decode-encode_onto (a ∷ (b ∷ (c ∷ rest))) decoded h =
    let t = triple_of a b c in
    let e : low_bits (shl (six t 18) 2 + low_bits (shr (six t 12) 4) 2) 8 ≡ a =
      omega (arith, h.0, h.1.0, h.1.1.0) in
    let e' : low_bits (shl (low_bits (six t 12) 4) 4 + low_bits (shr (six t 6) 2) 4) 8 ≡ b =
      omega (arith, h.0, h.1.0, h.1.1.0) in
    let e'' : low_bits (shl (low_bits (six t 6) 2) 6 + six t 0) 8 ≡ c =
      omega (arith, h.0, h.1.0, h.1.1.0) in
    group (six t 18) (six t 12) (six t 6) (six t 0) (base64_encode rest) decoded (six-lt t 18)
      (six-lt t 12) (six-lt t 6) (six-lt t 0)
    ∙ rw (e, e', e'')
        (decode-encode_onto rest (decoded ++ (a ∷ b ∷ c ∷ [])) h.1.1.1
          ∙ append_assoc decoded (a ∷ b ∷ c ∷ []) rest)

-- Bytes of any number are decoded from their encoding.
pub base64_decode-base64_encode :
    (xs : List ℕ) → All IsByte xs → base64_decode (base64_encode xs) ≡ xs
unfolding base64_decode
base64_decode-base64_encode xs h = decode-encode_onto xs [] h
