-- ===== src/Stream/FuHeader.antt =====
-- The headers of fragments, src/rtsp-common/rtp_packer.cpp, as src/client/rtsp_client.cpp reads them.
use rtsp_sdk.Common.{ℕ, ◌≡◌, refl, ◌<◌, ◌/◌, ◌%◌, ◌^◌, Bool, true, false, arith}
use rtsp_sdk.Common.Bits.{low_bits, bit_set, by_table, agree}
use rtsp_sdk.Common.Bytes.{at}
use rtsp_sdk.Rtp.Packer.{fu_a_prefix}
use rtsp_sdk.Client.Receiver.Payload.{reconstructed_nal}

pub indicator-type :
    (header : ℕ) (first last : Bool)
    → header < 128
    → low_bits (at (fu_a_prefix header first last) 0) 5 ≡ 28
unfolding fu_a_prefix agree
indicator-type header first last h =
    by_table (λ v. low_bits (at (fu_a_prefix v first last) 0) 5) (λ v. 28) 128 refl header h

flag : Bool → ℕ
flag b = elim b [ true ↦ 1 | false ↦ 0 ]

start-bit :
    (header : ℕ) (first last : Bool)
    → header < 128
    → at (fu_a_prefix header first last) 1 / 2 ^ 7 % 2 ≡ flag first
unfolding fu_a_prefix agree flag
start-bit header true true h =
    by_table (λ v. at (fu_a_prefix v true true) 1 / 2 ^ 7 % 2) (λ v. 1) 128 refl header h
start-bit header true false h =
    by_table (λ v. at (fu_a_prefix v true false) 1 / 2 ^ 7 % 2) (λ v. 1) 128 refl header h
start-bit header false true h =
    by_table (λ v. at (fu_a_prefix v false true) 1 / 2 ^ 7 % 2) (λ v. 0) 128 refl header h
start-bit header false false h =
    by_table (λ v. at (fu_a_prefix v false false) 1 / 2 ^ 7 % 2) (λ v. 0) 128 refl header h

bit_set-flag : (x k : ℕ) (b : Bool) → x / 2 ^ k % 2 ≡ flag b → bit_set x k ≡ b
unfolding flag
bit_set-flag x k true h = ground arith
bit_set-flag x k false h = ground arith

pub starts :
    (header : ℕ) (first last : Bool)
    → header < 128
    → bit_set (at (fu_a_prefix header first last) 1) 7 ≡ first
starts header first last h =
    bit_set-flag (at (fu_a_prefix header first last) 1) 7 first (start-bit header first last h)

pub again :
    (header : ℕ) (first last : Bool)
    → header < 128
    → reconstructed_nal
        (at (fu_a_prefix header first last) 0)
        (at (fu_a_prefix header first last) 1)
      ≡ header
unfolding fu_a_prefix agree reconstructed_nal
again header true true h =
    by_table
      (λ v. reconstructed_nal (at (fu_a_prefix v true true) 0) (at (fu_a_prefix v true true) 1))
      (λ v. v) 128 refl header h
again header true false h =
    by_table
      (λ v. reconstructed_nal (at (fu_a_prefix v true false) 0) (at (fu_a_prefix v true false) 1))
      (λ v. v) 128 refl header h
again header false true h =
    by_table
      (λ v. reconstructed_nal (at (fu_a_prefix v false true) 0) (at (fu_a_prefix v false true) 1))
      (λ v. v) 128 refl header h
again header false false h =
    by_table
      (λ v. reconstructed_nal (at (fu_a_prefix v false false) 0) (at (fu_a_prefix v false false) 1))
      (λ v. v) 128 refl header h
