-- ===== src/Rtmp/Flv/Config.antt =====
-- The decoder configuration records: src/rtmp/avc_config_record.cpp and src/rtmp/hevc_config_record.cpp.
pub mod Hevc
use Prim.Native.Nat.{bit_or}
use rtsp_sdk.Common.{
  ℕ, ◌+◌, ◌<◌, ◌≤◌, ◌≡◌, ◌^◌, refl, ap, false, ◌||◌, List, [], ◌∷◌, ◌++◌, length, take, drop,
  take-append, drop-append, ltb, le→ltb, ◌==◌, if◌then◌else◌, arith,
}
use rtsp_sdk.Common.Bits.{low_bits}
use rtsp_sdk.Common.Bytes.{at, be16, read_be16}

-- Empty: the parameter sets are too short.
unfoldable pub avc_config : List ℕ → List ℕ → List ℕ
avc_config sps pps =
    if ltb (length sps) 4 || (length pps == 0)
    then []
    else 1
      ∷ at sps 1
      ∷ at sps 2
      ∷ at sps 3
      ∷ 0xFF
      ∷ 0xE1
      ∷ (be16 (length sps) ++ (sps ++ (1 ∷ (be16 (length pps) ++ pps))))

unfoldable pub append_nalu_array : List ℕ → ℕ → List ℕ → List ℕ
append_nalu_array out nal_unit_type [] = out
append_nalu_array out nal_unit_type (b ∷ nalu) =
    out
    ++ (bit_or 0x80 (low_bits nal_unit_type 6) ∷ 0 ∷ 1 ∷ (be16 (length (b ∷ nalu)) ++ (b ∷ nalu)))

-- `if (!set.empty()) ++num_arrays`
unfoldable pub counted : List ℕ → ℕ → ℕ
counted [] n = n
counted (b ∷ set) n = n + 1

unfoldable pub hevc_header : List ℕ → ℕ → List ℕ
hevc_header s num_arrays =
    1
    ∷ at s 1
    ∷ at s 2
    ∷ at s 3
    ∷ at s 4
    ∷ at s 5
    ∷ at s 6
    ∷ at s 7
    ∷ at s 8
    ∷ at s 9
    ∷ at s 10
    ∷ at s 11
    ∷ at s 12
    ∷ 0xF0
    ∷ 0x00
    ∷ 0xFC
    ∷ 0xFD
    ∷ 0xF8
    ∷ 0xF8
    ∷ 0x00
    ∷ 0x00
    ∷ 0x0F
    ∷ num_arrays
    ∷ []

-- Empty: the SPS is too short.
unfoldable pub hevc_config : List ℕ → List ℕ → List ℕ → List ℕ
hevc_config vps sps pps =
    if ltb (length sps) 14
    then []
    else append_nalu_array
        (append_nalu_array
          (append_nalu_array (hevc_header sps (counted pps (counted sps (counted vps 0)))) 32 vps)
          33 sps)
        34 pps

-- A record of ISO/IEC 14496-15 with one SPS and one PPS, read where the standard has its fields.
pub record AvcRecord (config sps pps : List ℕ) : Type 0 where
  pub version : at config 0 ≡ 1
  pub profile : at config 1 ≡ at sps 1
  pub compatibility : at config 2 ≡ at sps 2
  pub level : at config 3 ≡ at sps 3
  pub length_size : low_bits (at config 4) 2 ≡ 3
  pub sps_count : low_bits (at config 5) 5 ≡ 1
  pub sps_length : read_be16 (drop 6 config) ≡ length sps
  pub sps_bytes : take (length sps) (drop 8 config) ≡ sps
  pub pps_count : at (drop (length sps) (drop 8 config)) 0 ≡ 1
  pub pps_length : read_be16 (drop 1 (drop (length sps) (drop 8 config))) ≡ length pps
  pub pps_bytes : drop 3 (drop (length sps) (drop 8 config)) ≡ pps

avc-built :
    (sps pps : List ℕ)
    → 4 ≤ length sps
    → 0 < length pps
    → avc_config sps pps
      ≡ 1
        ∷ at sps 1
        ∷ at sps 2
        ∷ at sps 3
        ∷ 0xFF
        ∷ 0xE1
        ∷ (be16 (length sps) ++ (sps ++ (1 ∷ (be16 (length pps) ++ pps))))
unfolding avc_config
avc-built sps pps hs hp =
    let filled : (length pps == 0) ≡ false = ground arith in
    rw (le→ltb (length sps) 4 hs, filled) refl

pps_part : (pps : List ℕ) → List ℕ
pps_part pps = 1 ∷ (be16 (length pps) ++ pps)

-- From an SPS of four bytes at least and a PPS that is not empty, both below 2 ^ 16 bytes, avc_config
-- makes a record whose fields, read back, are those of the SPS and both sets.
pub avc_config-AvcRecord :
    (sps pps : List ℕ)
    → 4 ≤ length sps
    → 0 < length pps
    → length sps < 2 ^ 16
    → length pps < 2 ^ 16
    → AvcRecord (avc_config sps pps) sps pps
unfolding be16 read_be16
avc_config-AvcRecord sps pps hs hp ss sp = rw (avc-built sps pps hs hp) (record {
  version = refl;
  profile = refl;
  compatibility = refl;
  level = refl;
  length_size = refl;
  sps_count = refl;
  sps_length = omega arith;
  sps_bytes = take-append sps _ (length sps) refl;
  pps_count = ap (λ (z : List ℕ). at z 0) (drop-append sps _ (length sps) refl);
  pps_length =
      rw (drop-append sps (1 ∷ (be16 (length pps) ++ pps)) (length sps) refl) (omega arith);
  pps_bytes = ap (λ (z : List ℕ). drop 3 z) (drop-append sps _ (length sps) refl);
})
