-- ===== src/Text/Md5.antt =====
-- `md5Hex` of src/rtsp-common/common.cpp. A word is a number below 2 ^ 32; the bit operations go
-- through its 32 bits.
use rtsp_sdk.Common.{
  ℕ, zero, suc, ◌+◌, ◌*◌, ◌-◌, ◌/◌, ◌%◌, ◌^◌, List, [], ◌∷◌, ◌++◌, length, take, drop, replicate,
  ltb, if◌then◌else◌,
}
use rtsp_sdk.Common.Bits.{shl, shr, low_bits}
use rtsp_sdk.Common.Bytes.{at, le32, read_le32}
use rtsp_sdk.Text.Chars.{Text}

-- `n` bits, each from the lowest bits of two numbers.
unfoldable pub bitwise : (ℕ → ℕ → ℕ) → ℕ → ℕ → ℕ → ℕ
bitwise f zero x y = 0
bitwise f (suc n) x y = f (x % 2) (y % 2) + 2 * bitwise f n (x / 2) (y / 2)

abbrev pub and_bit : ℕ → ℕ → ℕ
and_bit x y = x * y

abbrev pub or_bit : ℕ → ℕ → ℕ
or_bit x y = x + y - x * y

abbrev pub xor_bit : ℕ → ℕ → ℕ
xor_bit x y = (x + y) % 2

abbrev pub and32 : ℕ → ℕ → ℕ
and32 = bitwise and_bit 32

abbrev pub or32 : ℕ → ℕ → ℕ
or32 = bitwise or_bit 32

abbrev pub xor32 : ℕ → ℕ → ℕ
xor32 = bitwise xor_bit 32

abbrev pub not32 : ℕ → ℕ
not32 x = 2 ^ 32 - 1 - x

unfoldable pub left_rotate : ℕ → ℕ → ℕ
left_rotate x c = or32 (shl x c % 2 ^ 32) (shr x (32 - c))

unfoldable pub shift_table : List ℕ
shift_table =
    rounds (7 ∷ 12 ∷ 17 ∷ 22 ∷ [])
    ++ (rounds (5 ∷ 9 ∷ 14 ∷ 20 ∷ [])
        ++ (rounds (4 ∷ 11 ∷ 16 ∷ 23 ∷ []) ++ rounds (6 ∷ 10 ∷ 15 ∷ 21 ∷ [])))
  where
    rounds : List ℕ → List ℕ
    rounds four = four ++ (four ++ (four ++ four))

unfoldable pub sine_table : List ℕ
sine_table =
    0xd76a_a478 ∷ 0xe8c7_b756 ∷ 0x2420_70db ∷ 0xc1bd_ceee ∷ 0xf57c_0faf ∷ 0x4787_c62a ∷ 0xa830_4613
    ∷ 0xfd46_9501 ∷ 0x6980_98d8 ∷ 0x8b44_f7af ∷ 0xffff_5bb1 ∷ 0x895c_d7be ∷ 0x6b90_1122
    ∷ 0xfd98_7193 ∷ 0xa679_438e ∷ 0x49b4_0821 ∷ 0xf61e_2562 ∷ 0xc040_b340 ∷ 0x265e_5a51
    ∷ 0xe9b6_c7aa ∷ 0xd62f_105d ∷ 0x0244_1453 ∷ 0xd8a1_e681 ∷ 0xe7d3_fbc8 ∷ 0x21e1_cde6
    ∷ 0xc337_07d6 ∷ 0xf4d5_0d87 ∷ 0x455a_14ed ∷ 0xa9e3_e905 ∷ 0xfcef_a3f8 ∷ 0x676f_02d9
    ∷ 0x8d2a_4c8a ∷ 0xfffa_3942 ∷ 0x8771_f681 ∷ 0x6d9d_6122 ∷ 0xfde5_380c ∷ 0xa4be_ea44
    ∷ 0x4bde_cfa9 ∷ 0xf6bb_4b60 ∷ 0xbebf_bc70 ∷ 0x289b_7ec6 ∷ 0xeaa1_27fa ∷ 0xd4ef_3085
    ∷ 0x0488_1d05 ∷ 0xd9d4_d039 ∷ 0xe6db_99e5 ∷ 0x1fa2_7cf8 ∷ 0xc4ac_5665 ∷ 0xf429_2244
    ∷ 0x432a_ff97 ∷ 0xab94_23a7 ∷ 0xfc93_a039 ∷ 0x655b_59c3 ∷ 0x8f0c_cc92 ∷ 0xffef_f47d
    ∷ 0x8584_5dd1 ∷ 0x6fa8_7e4f ∷ 0xfe2c_e6e0 ∷ 0xa301_4314 ∷ 0x4e08_11a1 ∷ 0xf753_7e82
    ∷ 0xbd3a_f235 ∷ 0x2ad7_d2bb ∷ 0xeb86_d391 ∷ []

-- Zeros up to 56 bytes of a block.
unfoldable pub zero_padding : ℕ → ℕ
zero_padding size = if ltb (size % 64) 57 then 56 - size % 64 else 120 - size % 64

unfoldable pub le_bytes : ℕ → ℕ → List ℕ
le_bytes zero v = []
le_bytes (suc n) v = low_bits v 8 ∷ le_bytes n (shr v 8)

unfoldable pub padded : Text → List ℕ
padded input =
    let msg = input ++ (0x80 ∷ []) in
    msg ++ (replicate (zero_padding (length msg)) 0 ++ le_bytes 8 (length input * 8 % 2 ^ 64))

pub record Words : Type 0 where
  pub a : ℕ
  pub b : ℕ
  pub c : ℕ
  pub d : ℕ

unfoldable pub round_f : ℕ → ℕ → ℕ → ℕ → ℕ
round_f i b c d =
    if ltb i 16
    then or32 (and32 b c) (and32 (not32 b) d)
    else if ltb i 32
    then or32 (and32 d b) (and32 (not32 d) c)
    else if ltb i 48
    then xor32 (xor32 b c) d
    else xor32 c (or32 b (not32 d))

unfoldable pub round_g : ℕ → ℕ
round_g i =
    if ltb i 16
    then i
    else if ltb i 32
    then (5 * i + 1) % 16
    else if ltb i 48
    then (3 * i + 5) % 16
    else 7 * i % 16

-- `m[g]` of a block.
unfoldable pub word_of : List ℕ → ℕ → ℕ
word_of block g = read_le32 (drop (g * 4) block)

unfoldable pub round : List ℕ → ℕ → Words → Words
round block i w =
    let f = round_f i w.b w.c w.d in
    let sum = (w.a + f + at sine_table i + word_of block (round_g i)) % 2 ^ 32 in
    record { a = w.d; b = (w.b + left_rotate sum (at shift_table i)) % 2 ^ 32; c = w.b; d = w.c }

-- The rounds from `i` on.
unfoldable pub rounds_from : ℕ → List ℕ → ℕ → Words → Words
rounds_from zero block i w = w
rounds_from (suc n) block i w = rounds_from n block (suc i) (round block i w)

unfoldable pub add_words : Words → Words → Words
add_words v w = record {
  a = (v.a + w.a) % 2 ^ 32;
  b = (v.b + w.b) % 2 ^ 32;
  c = (v.c + w.c) % 2 ^ 32;
  d = (v.d + w.d) % 2 ^ 32;
}

-- All blocks of a padded message, of which there are `n`.
unfoldable pub blocks : ℕ → List ℕ → Words → Words
blocks zero msg w = w
blocks (suc n) msg w = blocks n (drop 64 msg) (add_words w (rounds_from 64 (take 64 msg) 0 w))

unfoldable pub hex_digit : ℕ → ℕ
hex_digit v = if ltb v 10 then 48 + v else 87 + v

unfoldable pub hex_bytes : List ℕ → Text
hex_bytes [] = []
hex_bytes (b ∷ bs) = hex_digit (b / 16) ∷ hex_digit (b % 16) ∷ hex_bytes bs

unfoldable pub first_words : Words
first_words = record { a = 0x6745_2301; b = 0xefcd_ab89; c = 0x98ba_dcfe; d = 0x1032_5476 }

unfoldable pub md5_hex : Text → Text
md5_hex input =
    let msg = padded input in
    let w = blocks (length msg / 64) msg first_words in
    hex_bytes (le32 w.a ++ (le32 w.b ++ (le32 w.c ++ le32 w.d)))
