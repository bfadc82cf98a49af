-- ===== src/Rtp/Packer/Content.antt =====
-- The bytes of a unit that the packers of src/rtsp-common/rtp_packer.cpp send.
use rtsp_sdk.Common.{
  ℕ, ◌-◌, ◌≤◌, ◌≡◌, List, [], ◌∷◌, ◌++◌, length, drop, take-append, length-take, arith,
}
use rtsp_sdk.Rtp.Frame.{NaluUnit}
use rtsp_sdk.Rtp.Nalu.AnnexB.{Clean, unit_at}
use rtsp_sdk.Rtp.Packer.{start_code_at, nalu_content}

-- A clean unit has no start code at its front.
start_code_at-Clean : (u w : List ℕ) → Clean u → start_code_at (u ++ w) (length u) ≡ 0
unfolding start_code_at
start_code_at-Clean [] w h = ground arith
start_code_at-Clean (a ∷ []) w h = ground arith
start_code_at-Clean (a ∷ (b ∷ [])) w h = ground arith
start_code_at-Clean (a ∷ (b ∷ (c ∷ []))) w h = ground arith
start_code_at-Clean (a ∷ (b ∷ (c ∷ (d ∷ u)))) w h = let front = h.0 in ground arith

pub nalu_content-unit_at : (u w : List ℕ) → Clean u → nalu_content (unit_at (u ++ w) (length u)) ≡ u
unfolding nalu_content unit_at
nalu_content-unit_at u w h =
    rw (start_code_at-Clean u w h) (take-append u w (length u - 0) (omega arith))

pub nalu_content-short : (n : NaluUnit) → length (nalu_content n) ≤ n.size
unfolding nalu_content
nalu_content-short n =
    let skip = start_code_at n.bytes n.size in
    omega (arith, length-take (n.size - skip) (drop skip n.bytes))
