-- ===== src/Rtp/Nalu/Steps.antt =====
-- One round of the loop of `parseNalusInternal`, src/rtsp-common/rtp_packer.cpp.
use rtsp_sdk.Common.{
  ℕ, suc, ◌+◌, ◌-◌, ◌≤◌, ◌<◌, ◌≡◌, refl, none, some, List, length, drop, le→ltb, lt→ltb,
}
use rtsp_sdk.Rtp.Frame.{NaluUnit}
use rtsp_sdk.Rtp.Nalu.{find_start_code, close_back, no_more_codes, open_nalu, parse_loop}

pub loop-end :
    (f : ℕ) (src : List ℕ) (offset : ℕ) (nalus : List NaluUnit)
    → length src ≤ offset + 3
    → parse_loop (suc f) src offset nalus ≡ some (close_back nalus (length src - offset))
unfolding parse_loop
loop-end f src offset nalus h = rw (le→ltb (offset + 3) (length src) h) refl

pub loop-none :
    (f : ℕ) (src : List ℕ) (offset : ℕ) (nalus : List NaluUnit)
    → offset + 3 < length src
    → find_start_code (drop offset src) 0 ≡ none
    → parse_loop (suc f) src offset nalus
      ≡ some (close_back (no_more_codes src offset nalus) (length src - offset))
unfolding parse_loop
loop-none f src offset nalus h e = rw (lt→ltb (offset + 3) (length src) h, e) refl

pub loop-code :
    (f : ℕ) (src : List ℕ) (offset : ℕ) (nalus : List NaluUnit) (start code_len : ℕ)
    → offset + 3 < length src
    → find_start_code (drop offset src) 0 ≡ some (start, code_len)
    → parse_loop (suc f) src offset nalus
      ≡ parse_loop f src
          (offset + start + code_len)
          (open_nalu src start (offset + start + code_len) nalus)
unfolding parse_loop
loop-code f src offset nalus start code_len h e = rw (lt→ltb (offset + 3) (length src) h, e) refl
