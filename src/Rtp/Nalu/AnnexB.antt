-- ===== src/Rtp/Nalu/AnnexB.antt =====
-- Buffers that src/rtsp-common/rtp_packer.cpp takes apart: units behind start codes of four bytes.
use rtsp_sdk.Common.{
  ℕ, ◌+◌, ◌≤◌, ◌<◌, ◌≡◌, refl, sym, ap, ◌∙◌, ◌⊎◌, inl, inr, true, none, some, List, [], ◌∷◌, ◌++◌,
  length, ltb, Bool-cases, le→ltb, lt→ltb, ltb→le, arith,
}
use rtsp_sdk.Common.Bits.{low_bits}
use rtsp_sdk.Common.Bytes.{at, length-bytes}
use rtsp_sdk.Rtp.Frame.{NaluUnit}
use rtsp_sdk.Rtp.Nalu.{code_here, find_start_code}

-- No byte of the unit begins a start code, not even with zeros behind the unit; so it does not end
-- in a zero.
abbrev pub Clean : List ℕ → Type 0
Clean [] = Unit
Clean (a ∷ u) = (0 < a ⊎ (0 < at u 0 ⊎ 1 < at u 1)) × Clean u

abbrev pub IsNalu : List ℕ → Type 0
IsNalu u = (0 < length u) × Clean u

unfoldable pub annex_b : List (List ℕ) → List ℕ
annex_b [] = []
annex_b (u ∷ us) = 0 ∷ 0 ∷ 0 ∷ 1 ∷ (u ++ annex_b us)

-- The unit that stands at the front of `rest`.
unfoldable pub unit_at : List ℕ → ℕ → NaluUnit
unit_at rest size = record {
  nalu_type = low_bits (at rest 0) 5;
  bytes = rest;
  size = size;
  start_code = true;
}

unfoldable pub units_of : List (List ℕ) → List NaluUnit
units_of [] = []
units_of (u ∷ us) = unit_at (u ++ annex_b us) (length u) ∷ units_of us

pub find-short : (p : List ℕ) (i : ℕ) → length p ≤ 3 → find_start_code p i ≡ none
unfolding find_start_code
find-short [] i h = refl
find-short (b ∷ rest) i h = rw (le→ltb 3 (length (b ∷ rest)) (omega arith)) refl

code_here-Clean : (a : ℕ) (p : List ℕ) → 0 < a ⊎ (0 < at p 0 ⊎ 1 < at p 1) → code_here (a ∷ p) ≡ 0
unfolding code_here
code_here-Clean a [] h = ground arith
code_here-Clean a (b ∷ []) h = ground arith
code_here-Clean a (b ∷ (c ∷ p)) h = ground arith

padded :
    (a : ℕ) (u tail : List ℕ)
    → at tail 0 ≡ 0
    → at tail 1 ≡ 0
    → 0 < a ⊎ (0 < at u 0 ⊎ 1 < at u 1)
    → 0 < a ⊎ (0 < at (u ++ tail) 0 ⊎ 1 < at (u ++ tail) 1)
padded a [] tail z0 z1 h = ground arith
padded a (b ∷ []) tail z0 z1 h = ground arith
padded a (b ∷ (c ∷ u)) tail z0 z1 h = h

find-next :
    (b : ℕ) (rest : List ℕ) (i : ℕ)
    → ltb 3 (length (b ∷ rest)) ≡ true
    → code_here (b ∷ rest) ≡ 0
    → find_start_code (b ∷ rest) i ≡ find_start_code rest (i + 1)
unfolding find_start_code
find-next b rest i long none_here = rw (long, none_here) refl

-- The search runs through a clean unit.
pub find-Clean :
    (u tail : List ℕ) (i : ℕ)
    → at tail 0 ≡ 0
    → at tail 1 ≡ 0
    → Clean u
    → find_start_code (u ++ tail) i ≡ find_start_code tail (i + length u)
find-Clean [] tail i z0 z1 h = let e : i + length {A = ℕ} [] ≡ i = omega arith in rw e refl
find-Clean (a ∷ u) tail i z0 z1 h =
    let ih = find-Clean u tail (i + 1) z0 z1 h.1 in
    let e : i + 1 + length u ≡ i + length (a ∷ u) = omega arith in
    let none_here = code_here-Clean a (u ++ tail) (padded a u tail z0 z1 h.0) in
    elim (Bool-cases (ltb 3 (length (a ∷ (u ++ tail))))) [
      | inl long ↦ find-next a (u ++ tail) i long none_here ∙ (ih ∙ ap (find_start_code tail) e)
      | inr short ↦
          let few = ltb→le 3 (length (a ∷ (u ++ tail))) short in
          let l = length-bytes u tail in
          find-short (a ∷ (u ++ tail)) i (omega arith)
          ∙ sym (find-short tail (i + length (a ∷ u)) (omega arith))
    ]

-- The search stops at a start code with something behind it.
pub find-code :
    (rest : List ℕ) (i : ℕ)
    → 0 < length rest
    → find_start_code (0 ∷ 0 ∷ 0 ∷ 1 ∷ rest) i ≡ some (i, 4)
unfolding find_start_code code_here
find-code [] i h = absurd (omega arith)
find-code (b ∷ rest) i h =
    rw
      (
        lt→ltb 3 (length (0 ∷ 0 ∷ 0 ∷ 1 ∷ b ∷ rest)) (omega arith),
        lt→ltb 4 (length (0 ∷ 0 ∷ 0 ∷ 1 ∷ b ∷ rest)) (omega arith),
      )
      refl
