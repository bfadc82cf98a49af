-- ===== src/Rtmp/Flv/Config/Hevc.antt =====
-- The record of src/rtmp/hevc_config_record.cpp, read as ISO/IEC 14496-15 lays it out.
use rtsp_sdk.Common.{ℕ, zero, suc, ◌<◌, ◌^◌, List, [], ◌∷◌, ◌++◌, length, take, drop}
use Prim.Native.Nat.{bit_or}
use rtsp_sdk.Common.Bits.{low_bits}
use rtsp_sdk.Common.Bytes.{at, be16, read_be16}

-- A parameter set with its type, where there is one.
unfoldable pub present : ℕ → List ℕ → List (ℕ × List ℕ) → List (ℕ × List ℕ)
present t [] r = r
present t (b ∷ set) r = (t, b ∷ set) ∷ r

-- A reader of so many arrays of one unit each.
unfoldable pub read_arrays : ℕ → List ℕ → List (ℕ × List ℕ)
read_arrays zero bytes = []
read_arrays (suc n) bytes =
    (low_bits (at bytes 0) 6, take (read_be16 (drop 3 bytes)) (drop 5 bytes))
    ∷ read_arrays n (drop (read_be16 (drop 3 bytes)) (drop 5 bytes))

-- The arrays as the code writes them.
array_bytes : List (ℕ × List ℕ) → List ℕ
array_bytes [] = []
array_bytes ((t, set) ∷ r) =
    bit_or 0x80 (low_bits t 6) ∷ 0 ∷ 1 ∷ (be16 (length set) ++ (set ++ array_bytes r))

abbrev IsArray : ℕ × List ℕ → Type 0
IsArray (t, set) = (t < 64) × (length set < 2 ^ 16)

-- The parameter sets that are there, with their types.
unfoldable pub sets_of : List ℕ → List ℕ → List ℕ → List (ℕ × List ℕ)
sets_of vps sps pps = present 32 vps (present 33 sps (present 34 pps []))
