-- ===== src/Rtp/Nalu.antt =====
-- `findStartCode` and `parseNalusInternal` of src/rtsp-common/rtp_packer.cpp.
pub mod AnnexB
pub mod Steps
pub mod RoundTrip
pub mod Safe
use rtsp_sdk.Common.{
  ℕ, zero, suc, ◌+◌, ◌-◌, true, false, ◌&&◌, Option, none, some, List, [], ◌∷◌, length, drop, ltb,
  ◌==◌, if◌then◌else◌,
}
use rtsp_sdk.Common.Bits.{low_bits}
use rtsp_sdk.Common.Bytes.{at}
use rtsp_sdk.Rtp.Frame.{NaluUnit}

-- The start code at the front of what is left, or 0.
unfoldable pub code_here : List ℕ → ℕ
code_here p =
    if at p 0 == 0 && at p 1 == 0
    then (if at p 2 == 1
        then 3
        else if ltb 4 (length p) && (at p 2 == 0 && at p 3 == 1)
        then 4
        else 0)
    else 0

-- The position of the first start code, counted from `i`, and its length.
unfoldable pub find_start_code : List ℕ → ℕ → Option (ℕ × ℕ)
unfolding code_here
find_start_code [] i = none
find_start_code (b ∷ rest) i =
    let later = find_start_code rest (i + 1) in
    if ltb 3 (length (b ∷ rest))
    then (if code_here (b ∷ rest) == 0 then later else some (i, code_here (b ∷ rest)))
    else none

-- `if (!nalus.empty() && nalus.back().size == 0) nalus.back().size = size`. The list is the vector
-- from its back to its front.
unfoldable pub close_back : List NaluUnit → ℕ → List NaluUnit
close_back [] size = []
close_back (n ∷ nalus) size = if n.size == 0 then record n { size = size } ∷ nalus else n ∷ nalus

-- The unit for data without any start code.
unfoldable pub bare_nalu : List ℕ → ℕ → List NaluUnit
bare_nalu src offset =
    if ltb offset (length src)
    then (record {
      nalu_type = low_bits (at src offset) 5;
      bytes = drop offset src;
      size = length src - offset;
      start_code = false;
    }
        ∷ [])
    else []

-- No further start code: `break`.
unfoldable pub no_more_codes : List ℕ → ℕ → List NaluUnit → List NaluUnit
unfolding bare_nalu close_back
no_more_codes src offset [] = bare_nalu src offset
no_more_codes src offset (n ∷ nalus) = close_back (n ∷ nalus) (length src - offset)

-- A start code at `start` from `offset`: the unit before it ends there, and a new one begins.
unfoldable pub open_nalu : List ℕ → ℕ → ℕ → List NaluUnit → List NaluUnit
unfolding close_back
open_nalu src start nalu_start nalus =
    record {
      nalu_type = if ltb nalu_start (length src) then low_bits (at src nalu_start) 5 else 0;
      bytes = drop nalu_start src;
      size = 0;
      start_code = true;
    }
    ∷ close_back nalus start

-- The loop, with the last step behind it; `none` is no result of the code: the fuel ran out.
unfoldable pub parse_loop : ℕ → List ℕ → ℕ → List NaluUnit → Option (List NaluUnit)
parse_loop zero src offset nalus = none
parse_loop (suc f) src offset nalus =
    if ltb (offset + 3) (length src)
    then elim (find_start_code (drop offset src) 0) [
      | none ↦ some (close_back (no_more_codes src offset nalus) (length src - offset))
      | some (start, code_len) ↦
          parse_loop f src (offset + start + code_len)
            (open_nalu src start (offset + start + code_len) nalus)
    ]
    else some (close_back nalus (length src - offset))

unfoldable pub reverse_onto : List NaluUnit → List NaluUnit → List NaluUnit
reverse_onto [] out = out
reverse_onto (n ∷ nalus) out = reverse_onto nalus (n ∷ out)

unfoldable pub in_order : Option (List NaluUnit) → Option (List NaluUnit)
unfolding reverse_onto
in_order none = none
in_order (some nalus) = some (reverse_onto nalus [])

-- Each round passes a start code of three bytes at least.
unfoldable pub parse_nalus : List ℕ → Option (List NaluUnit)
unfolding in_order
parse_nalus src = in_order (parse_loop (length src + 1) src 0 [])
