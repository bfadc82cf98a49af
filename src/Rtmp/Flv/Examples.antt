-- ===== src/Rtmp/Flv/Examples.antt =====
-- The theorems on FLV payloads at concrete inputs.
use rtsp_sdk.Common.{ℕ, ◌≡◌, inl, some, List, [], ◌∷◌, arith}
use rtsp_sdk.Rtp.Nalu.AnnexB.{annex_b}
use rtsp_sdk.Rtmp.Flv.Avcc.{annex_b_to_avcc, avcc, annex_b_to_avcc-annex_b}
use rtsp_sdk.Rtmp.Flv.Config.{avc_config, AvcRecord, avc_config-AvcRecord}

abbrev sps : List ℕ
sps = 0x67 ∷ 0x42 ∷ 0xC0 ∷ 0x1E ∷ []

abbrev pps : List ℕ
pps = 0x68 ∷ 0xCE ∷ []

abbrev long_sps : List ℕ
long_sps = 0x42 ∷ 1 ∷ 1 ∷ 1 ∷ 0x60 ∷ 1 ∷ 1 ∷ 1 ∷ 1 ∷ 1 ∷ 1 ∷ 1 ∷ 1 ∷ 93 ∷ []

annex_b_to_avcc-annex_b_example :
    annex_b_to_avcc (annex_b (sps ∷ pps ∷ [])) ≡ some (avcc (sps ∷ pps ∷ []))
annex_b_to_avcc-annex_b_example = annex_b_to_avcc-annex_b (sps ∷ pps ∷ []) (
  (
    omega arith,
    (inl (omega arith), (inl (omega arith), (inl (omega arith), (inl (omega arith), tt)))),
  ),
  ((omega arith, (inl (omega arith), (inl (omega arith), tt))), tt),
)

avc_config-AvcRecord_example : AvcRecord (avc_config sps pps) sps pps
avc_config-AvcRecord_example =
    avc_config-AvcRecord sps pps (omega arith) (omega arith) (omega arith) (omega arith)
