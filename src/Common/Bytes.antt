-- ===== src/Common/Bytes.antt =====
-- Big- and little-endian fields, as the codecs write and read them. A byte is a number below 256;
-- shifted bytes fill disjoint bits, so `|` between them is written as `+`.
use Prim.Native.Nat.{ℕ, zero, suc, ◌+◌, ◌^◌, ◌<◌}
use mathlib.Core.Path.{◌≡◌, refl}
use mathlib.Core.List.{List, [], ◌∷◌, ◌++◌}
use native.Mathlib.Omega.{arith}
use rtsp_sdk.Common.Lists.{get_or, length, length-append, All}
use rtsp_sdk.Common.Bits.{shl, shr, low_bits}

abbrev pub IsByte : ℕ → Type 0
IsByte b = b < 256

abbrev pub IsU32 : ℕ → Type 0
IsU32 v = v < 2 ^ 32

-- `data[i]`; every read of the program is behind a length test.
abbrev pub at : List ℕ → ℕ → ℕ
at src i = get_or src i 0

unfoldable pub be16 : ℕ → List ℕ
be16 v = low_bits (shr v 8) 8 ∷ low_bits v 8 ∷ []

unfoldable pub be24 : ℕ → List ℕ
be24 v = low_bits (shr v 16) 8 ∷ low_bits (shr v 8) 8 ∷ low_bits v 8 ∷ []

unfoldable pub be32 : ℕ → List ℕ
be32 v = low_bits (shr v 24) 8 ∷ low_bits (shr v 16) 8 ∷ low_bits (shr v 8) 8 ∷ low_bits v 8 ∷ []

unfoldable pub le32 : ℕ → List ℕ
le32 v = low_bits v 8 ∷ low_bits (shr v 8) 8 ∷ low_bits (shr v 16) 8 ∷ low_bits (shr v 24) 8 ∷ []

unfoldable pub read_be16 : List ℕ → ℕ
read_be16 p = shl (at p 0) 8 + at p 1

unfoldable pub read_be24 : List ℕ → ℕ
read_be24 p = shl (at p 0) 16 + shl (at p 1) 8 + at p 2

unfoldable pub read_be32 : List ℕ → ℕ
read_be32 p = shl (at p 0) 24 + shl (at p 1) 16 + shl (at p 2) 8 + at p 3

unfoldable pub read_le32 : List ℕ → ℕ
read_le32 p = at p 0 + shl (at p 1) 8 + shl (at p 2) 16 + shl (at p 3) 24

pub read_be16-be16 : (v : ℕ) (rest : List ℕ) → v < 2 ^ 16 → read_be16 (be16 v ++ rest) ≡ v
unfolding read_be16 be16
read_be16-be16 v rest h = omega arith

pub read_be24-be24 : (v : ℕ) (rest : List ℕ) → v < 2 ^ 24 → read_be24 (be24 v ++ rest) ≡ v
unfolding read_be24 be24
read_be24-be24 v rest h = omega arith

pub read_be32-be32 : (v : ℕ) (rest : List ℕ) → v < 2 ^ 32 → read_be32 (be32 v ++ rest) ≡ v
unfolding read_be32 be32
read_be32-be32 v rest h = omega arith

pub read_le32-le32 : (v : ℕ) (rest : List ℕ) → v < 2 ^ 32 → read_le32 (le32 v ++ rest) ≡ v
unfolding read_le32 le32
read_le32-le32 v rest h = omega arith

unfoldable pub be64 : ℕ → List ℕ
be64 v =
    low_bits (shr v 56) 8
    ∷ low_bits (shr v 48) 8
    ∷ low_bits (shr v 40) 8
    ∷ low_bits (shr v 32) 8
    ∷ low_bits (shr v 24) 8
    ∷ low_bits (shr v 16) 8
    ∷ low_bits (shr v 8) 8
    ∷ low_bits v 8
    ∷ []

unfoldable pub read_be64 : List ℕ → ℕ
read_be64 p =
    shl (at p 0) 56
    + shl (at p 1) 48
    + shl (at p 2) 40
    + shl (at p 3) 32
    + shl (at p 4) 24
    + shl (at p 5) 16
    + shl (at p 6) 8
    + at p 7

pub read_be64-be64 : (v : ℕ) (rest : List ℕ) → v < 2 ^ 64 → read_be64 (be64 v ++ rest) ≡ v
unfolding read_be64 be64
read_be64-be64 v rest h = omega arith

pub length-be16 : (v : ℕ) → length (be16 v) ≡ 2
unfolding be16
length-be16 v = refl

pub length-be24 : (v : ℕ) → length (be24 v) ≡ 3
unfolding be24
length-be24 v = refl

pub length-be32 : (v : ℕ) → length (be32 v) ≡ 4
unfolding be32
length-be32 v = refl

pub length-le32 : (v : ℕ) → length (le32 v) ≡ 4
unfolding le32
length-le32 v = refl

pub length-be64 : (v : ℕ) → length (be64 v) ≡ 8
unfolding be64
length-be64 v = refl

pub length-bytes : (xs ys : List ℕ) → length (xs ++ ys) ≡ length xs + length ys
length-bytes = length-append

-- For `omega`, on lists of bytes.
pub ruleset lengths =
    (arith, length-bytes, length-be16, length-be24, length-be32, length-le32, length-be64)

pub at-IsByte : (src : List ℕ) (i : ℕ) → All IsByte src → at src i < 256
at-IsByte [] i h = omega arith
at-IsByte (x ∷ xs) zero h = h.0
at-IsByte (x ∷ xs) (suc i) h = at-IsByte xs i h.1

pub read_be16-lt : (src : List ℕ) → All IsByte src → read_be16 src < 2 ^ 16
unfolding read_be16
read_be16-lt src h = omega (arith, at-IsByte src 0 h, at-IsByte src 1 h)

pub read_be32-lt : (src : List ℕ) → All IsByte src → read_be32 src < 2 ^ 32
unfolding read_be32
read_be32-lt src h =
    omega (arith, at-IsByte src 0 h, at-IsByte src 1 h, at-IsByte src 2 h, at-IsByte src 3 h)

pub read_be64-lt : (src : List ℕ) → All IsByte src → read_be64 src < 2 ^ 64
unfolding read_be64
read_be64-lt src h = omega (
  arith,
  at-IsByte src 0 h,
  at-IsByte src 1 h,
  at-IsByte src 2 h,
  at-IsByte src 3 h,
  at-IsByte src 4 h,
  at-IsByte src 5 h,
  at-IsByte src 6 h,
  at-IsByte src 7 h,
)
