-- ===== src/Rtp/Nalu/Safe.antt =====
-- `parseNalusInternal` of src/rtsp-common/rtp_packer.cpp stays within its buffer.
use rtsp_sdk.Common.{
  ℕ, zero, suc, ◌+◌, ◌-◌, ◌≤◌, ◌<◌, ◌≡◌, ◌≢◌, subst, refl, inl, inr, Option, none, some, List, [],
  ◌∷◌, length, drop, length-drop, All, ltb, ◌==◌, Bool-cases, Option-cases, ltb→le, ltb→lt, arith,
}
use rtsp_sdk.Rtp.Frame.{NaluUnit}
use rtsp_sdk.Rtp.Nalu.{
  code_here, find_start_code, close_back, bare_nalu, no_more_codes, open_nalu, parse_loop,
  reverse_onto, in_order, parse_nalus,
}
use rtsp_sdk.Rtp.Nalu.Steps.{loop-end, loop-none, loop-code}

-- The unit is `size` bytes of the buffer from some place on.
abbrev pub Inside : List ℕ → NaluUnit → Type 0
Inside src n = (k : ℕ) × ((n.bytes ≡ drop k src) × (k + n.size ≤ length src))

abbrev Found : List ℕ → ℕ → Option (ℕ × ℕ) → Type 0
Found p i none = Unit
Found p i (some (s, c)) = (i ≤ s) × ((3 ≤ c) × (s + c ≤ i + length p))

Found-later :
    (b : ℕ) (p : List ℕ) (i : ℕ) (r : Option (ℕ × ℕ)) → Found p (i + 1) r → Found (b ∷ p) i r
Found-later b p i none h = tt
Found-later b p i (some (s, c)) h = (omega (arith, h.0), (h.1.0, omega (arith, h.1.1)))

Found-here :
    (p : List ℕ) (i : ℕ) → 3 < length p → code_here p ≢ 0 → Found p i (some (i, code_here p))
unfolding code_here
Found-here p i long h = (omega arith, (ground arith, ground arith))

find-Found : (p : List ℕ) (i : ℕ) → Found p i (find_start_code p i)
unfolding find_start_code
find-Found [] i = tt
find-Found (b ∷ p) i =
    let ih = find-Found p (i + 1) in
    elim (Bool-cases (ltb 3 (length (b ∷ p)))) [
      | inr short ↦ rw short tt
      | inl long ↦ elim (Bool-cases (code_here (b ∷ p) == 0)) [
        | inl no_code ↦ rw (long, no_code) (Found-later b p i _ ih)
        | inr code ↦
            rw (long, code) (Found-here (b ∷ p) i (ltb→lt 3 (length (b ∷ p)) long) (ground arith))
      ]
    ]

-- The open unit at the back starts at `offset`; the others are inside.
abbrev Open : List ℕ → ℕ → List NaluUnit → Type 0
Open src offset [] = Unit
Open src offset (n ∷ nalus) = (n.bytes ≡ drop offset src) × ((n.size ≡ 0) × All (Inside src) nalus)

close-Inside :
    (src : List ℕ) (offset size : ℕ) (nalus : List NaluUnit)
    → offset + size ≤ length src
    → Open src offset nalus
    → All (Inside src) (close_back nalus size)
unfolding close_back
close-Inside src offset size [] h o = tt
close-Inside src offset size (n ∷ nalus) h o = rw o.1.0 ((offset, (o.0, h)), o.1.1)

-- Units that are inside stay so when the back one is closed again.
close-twice :
    (src : List ℕ) (offset size : ℕ) (n : NaluUnit) (nalus : List NaluUnit)
    → offset + size ≤ length src
    → n.bytes ≡ drop offset src
    → n.size ≤ size
    → All (Inside src) nalus
    → All (Inside src) (close_back (n ∷ nalus) size)
unfolding close_back
close-twice src offset size n nalus h e s rest = elim (Bool-cases (n.size == 0)) [
  | inl t ↦ rw t ((offset, (e, h)), rest)
  | inr t ↦ rw t ((offset, (e, omega arith)), rest)
]

bare-Inside :
    (src : List ℕ) (offset : ℕ)
    → offset ≤ length src
    → All (Inside src) (close_back (bare_nalu src offset) (length src - offset))
unfolding bare_nalu
bare-Inside src offset h = elim (Bool-cases (ltb offset (length src))) [
  | inl t ↦
      rw t (close-twice src offset (length src - offset) _ [] (omega arith) refl (omega arith) tt)
  | inr t ↦ rw t (close-Inside src offset (length src - offset) [] (omega arith) tt)
]

closed-again :
    (src : List ℕ) (offset : ℕ) (n : NaluUnit) (nalus : List NaluUnit)
    → offset ≤ length src
    → Open src offset (n ∷ nalus)
    → All
        (Inside src)
        (close_back (close_back (n ∷ nalus) (length src - offset)) (length src - offset))
closed-again src offset n nalus h o =
    let size = length src - offset in
    let once : close_back (n ∷ nalus) size ≡ record n { size = size } ∷ nalus =
      unfold close_back in rw o.1.0 refl in
    rw once (
      close-twice src offset size (record n { size = size }) nalus (omega arith) o.0 (omega arith)
        o.1.1)

no_more-Inside :
    (src : List ℕ) (offset : ℕ) (nalus : List NaluUnit)
    → offset ≤ length src
    → Open src offset nalus
    → All (Inside src) (close_back (no_more_codes src offset nalus) (length src - offset))
unfolding no_more_codes
no_more-Inside src offset [] h o = bare-Inside src offset h
no_more-Inside src offset (n ∷ nalus) h o = closed-again src offset n nalus h o

open_nalu-Open :
    (src : List ℕ) (offset start next : ℕ) (nalus : List NaluUnit)
    → offset + start ≤ length src
    → Open src offset nalus
    → Open src next (open_nalu src start next nalus)
unfolding open_nalu
open_nalu-Open src offset start next nalus h o =
    (refl, (refl, close-Inside src offset start nalus h o))

reverse-Inside :
    (src : List ℕ) (xs ys : List NaluUnit)
    → All (Inside src) xs
    → All (Inside src) ys
    → All (Inside src) (reverse_onto xs ys)
unfolding reverse_onto
reverse-Inside src [] ys hx hy = hy
reverse-Inside src (x ∷ xs) ys hx hy = reverse-Inside src xs (x ∷ ys) hx.1 (hx.0, hy)

-- A result, and every unit of it is inside.
abbrev pub Parses : List ℕ → Option (List NaluUnit) → Type 0
Parses src r = (nalus : List NaluUnit) × ((r ≡ some nalus) × All (Inside src) nalus)

loop-Parses :
    (f : ℕ) (src : List ℕ) (offset : ℕ) (nalus : List NaluUnit)
    → length src - offset < f
    → offset ≤ length src
    → Open src offset nalus
    → Parses src (parse_loop f src offset nalus)
loop-Parses zero src offset nalus fuel h o = absurd (omega arith)
loop-Parses (suc f) src offset nalus fuel h o = elim (Bool-cases (ltb (offset + 3) (length src))) [
  | inr short ↦ (
    _,
    (
      loop-end f src offset nalus (ltb→le (offset + 3) (length src) short),
      close-Inside src offset (length src - offset) nalus (omega arith) o,
    ),
  )
  | inl long ↦ elim (Option-cases (find_start_code (drop offset src) 0)) [
    | inl nothing ↦ (
      _,
      (
        loop-none f src offset nalus (ltb→lt (offset + 3) (length src) long) nothing,
        no_more-Inside src offset nalus h o,
      ),
    )
    | inr ((start, code_len), found) ↦
        let there : Found (drop offset src) 0 (some (start, code_len)) =
          subst (Found (drop offset src) 0) found (find-Found (drop offset src) 0) in
        let l = length-drop offset src in
        rw
          (loop-code f src offset nalus start code_len (ltb→lt (offset + 3) (length src) long)
            found)
          (loop-Parses f src (offset + start + code_len)
            (open_nalu src start (offset + start + code_len) nalus)
            (omega (arith, there.1.0, there.1.1)) (omega (arith, there.1.0, there.1.1))
            (open_nalu-Open src offset start (offset + start + code_len) nalus
              (omega (arith, there.1.0, there.1.1)) o))
  ]
]

-- On any buffer parse_nalus ends, and every unit it gives is a piece of the buffer: its bytes are
-- those from some place on, and its size does not reach beyond the end.
pub parse_nalus-Inside : (src : List ℕ) → Parses src (parse_nalus src)
unfolding parse_nalus in_order
parse_nalus-Inside src =
    let r = loop-Parses (length src + 1) src 0 [] (omega arith) (omega arith) tt in
    (reverse_onto r.0 [], (rw r.1.0 refl, reverse-Inside src r.0 [] r.1.1 tt))
