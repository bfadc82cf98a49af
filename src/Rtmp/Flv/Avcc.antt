-- ===== src/Rtmp/Flv/Avcc.antt =====
-- `annexBToAvcc` of src/rtmp/flv_tag_encoder.cpp.
use rtsp_sdk.Common.{
  ℕ, zero, suc, ◌+◌, ◌<◌, ◌≤◌, ◌≡◌, refl, sym, ap, ◌∙◌, ◌⊎◌, inl, inr, Bool, false, ◌&&◌, ◌||◌,
  Option, none, some, List, [], ◌∷◌, ◌++◌, append-nil, append_assoc, length, take, drop,
  take-append, drop-append, length-drop, All, leb, ◌==◌, if◌then◌else◌, Bool-cases, arith,
}
use rtsp_sdk.Common.Bytes.{at, be32, lengths}
use rtsp_sdk.Rtp.Nalu.AnnexB.{Clean, IsNalu, annex_b}

unfoldable pub is_start3 : List ℕ → Bool
is_start3 p = leb 3 (length p) && (at p 0 == 0 && (at p 1 == 0 && at p 2 == 1))

unfoldable pub is_start4 : List ℕ → Bool
is_start4 p = leb 4 (length p) && (at p 0 == 0 && (at p 1 == 0 && (at p 2 == 0 && at p 3 == 1)))

-- `sc`
unfoldable pub start_len : List ℕ → ℕ
start_len p = if is_start4 p then 4 else if is_start3 p then 3 else 0

-- The bytes up to the next start code.
unfoldable pub nalu_len : List ℕ → ℕ
nalu_len [] = 0
nalu_len (b ∷ p) =
    let later = nalu_len p in if is_start3 (b ∷ p) || is_start4 (b ∷ p) then 0 else suc later

unfoldable pub add_nalu : List ℕ → List ℕ → List ℕ
add_nalu out p = if nalu_len p == 0 then out else out ++ (be32 (nalu_len p) ++ take (nalu_len p) p)

-- The loop, with `rest` the bytes from `i` on; `none` is no result of the code: the fuel ran out.
unfoldable pub avcc_loop : ℕ → List ℕ → List ℕ → List ℕ → Option (List ℕ)
avcc_loop zero src rest out = none
avcc_loop (suc f) src rest out =
    let p = drop (start_len rest) rest in
    let more = avcc_loop f src (drop (nalu_len p) p) (add_nalu out p) in
    if length rest == 0
    then some out
    else if start_len rest == 0
    then (if length out == 0 then some (be32 (length src) ++ src) else some out)
    else more

-- Each round passes a start code.
unfoldable pub annex_b_to_avcc : List ℕ → Option (List ℕ)
annex_b_to_avcc src = avcc_loop (length src + 1) src src []

-- The units with their lengths in front.
unfoldable pub avcc : List (List ℕ) → List ℕ
avcc [] = []
avcc (u ∷ us) = be32 (length u) ++ (u ++ avcc us)

-- No start code at a byte of a clean unit.
not_start :
    (a : ℕ) (u tail : List ℕ)
    → at tail 0 ≡ 0
    → at tail 1 ≡ 0
    → 0 < a ⊎ (0 < at u 0 ⊎ 1 < at u 1)
    → (is_start3 (a ∷ (u ++ tail)) || is_start4 (a ∷ (u ++ tail))) ≡ false
unfolding is_start3 is_start4
not_start a [] tail z0 z1 h = ground arith
not_start a (b ∷ []) tail z0 z1 h = ground arith
not_start a (b ∷ (c ∷ u)) tail z0 z1 h = ground arith

nalu_len-Clean :
    (u tail : List ℕ)
    → at tail 0 ≡ 0
    → at tail 1 ≡ 0
    → nalu_len tail ≡ 0
    → Clean u
    → nalu_len (u ++ tail) ≡ length u
unfolding nalu_len
nalu_len-Clean [] tail z0 z1 e h = e
nalu_len-Clean (a ∷ u) tail z0 z1 e h =
    rw (not_start a u tail z0 z1 h.0) (ap suc (nalu_len-Clean u tail z0 z1 e h.1))

start-code : (rest : List ℕ) → start_len (0 ∷ 0 ∷ 0 ∷ 1 ∷ rest) ≡ 4
unfolding start_len is_start4
start-code rest = ground arith

nalu_len-code : (rest : List ℕ) → nalu_len (0 ∷ 0 ∷ 0 ∷ 1 ∷ rest) ≡ 0
unfolding nalu_len is_start3 is_start4
nalu_len-code rest = ground arith

nalu_len-nil : nalu_len [] ≡ 0
unfolding nalu_len
nalu_len-nil = refl

-- Behind a unit stands the end or another start code.
unit-length : (u : List ℕ) (us : List (List ℕ)) → Clean u → nalu_len (u ++ annex_b us) ≡ length u
unfolding annex_b
unit-length u [] h = nalu_len-Clean u [] refl refl nalu_len-nil h
unit-length u (v ∷ vs) h = nalu_len-Clean u _ refl refl (nalu_len-code (v ++ annex_b vs)) h

add_nalu-unit :
    (out u : List ℕ) (us : List (List ℕ))
    → IsNalu u
    → add_nalu out (u ++ annex_b us) ≡ out ++ (be32 (length u) ++ u)
unfolding add_nalu
add_nalu-unit out u us h =
    let some_bytes : (length u == 0) ≡ false = let l = h.0 in ground arith in
    rw (unit-length u us h.1, some_bytes, take-append u (annex_b us) (length u) refl) refl

loop-unit :
    (f : ℕ) (src u out : List ℕ) (us : List (List ℕ))
    → IsNalu u
    → avcc_loop (suc f) src (annex_b (u ∷ us)) out
      ≡ avcc_loop f src (annex_b us) (out ++ (be32 (length u) ++ u))
unfolding avcc_loop annex_b
loop-unit f src u out us h =
    let filled : (length (annex_b (u ∷ us)) == 0) ≡ false = ground arith in
    rw
      (
        filled,
        start-code (u ++ annex_b us),
        add_nalu-unit out u us h,
        unit-length u us h.1,
        drop-append u (annex_b us) (length u) refl,
      )
      refl

loop-end : (f : ℕ) (src out : List ℕ) → avcc_loop (suc f) src (annex_b []) out ≡ some out
unfolding avcc_loop annex_b
loop-end f src out = refl

loop-units :
    (f : ℕ) (src out : List ℕ) (us : List (List ℕ))
    → length us < f
    → All IsNalu us
    → avcc_loop f src (annex_b us) out ≡ some (out ++ avcc us)
unfolding avcc
loop-units zero src out us fuel h = absurd (omega arith)
loop-units (suc f) src out [] fuel h = loop-end f src out ∙ ap some (sym (append-nil out))
loop-units (suc f) src out (u ∷ us) fuel h =
    loop-unit f src u out us h.0
    ∙ (loop-units f src (out ++ (be32 (length u) ++ u)) us (omega arith) h.1
        ∙ ap some (simp append_assoc))

few-units : (us : List (List ℕ)) → length us ≤ length (annex_b us)
unfolding annex_b
few-units [] = omega arith
few-units (u ∷ us) = omega (lengths, few-units us)

-- Units, each not empty and clean, behind start codes of four bytes: annex_b_to_avcc ends and gives
-- the same units with their lengths, in 32 bits, in place of the start codes.
pub annex_b_to_avcc-annex_b :
    (us : List (List ℕ)) → All IsNalu us → annex_b_to_avcc (annex_b us) ≡ some (avcc us)
unfolding annex_b_to_avcc
annex_b_to_avcc-annex_b us h =
    loop-units (length (annex_b us) + 1) (annex_b us) [] us (omega (arith, few-units us)) h

start_len-bound : (p : List ℕ) → start_len p ≤ length p
unfolding start_len is_start3 is_start4
start_len-bound p = ground arith

loop-ends :
    (f : ℕ) (src rest out : List ℕ)
    → length rest < f
    → (res : List ℕ) × (avcc_loop f src rest out ≡ some res)
unfolding avcc_loop
loop-ends zero src rest out fuel = absurd (omega arith)
loop-ends (suc f) src rest out fuel =
    let p = drop (start_len rest) rest in
    let l = length-drop (start_len rest) rest in
    let l' = length-drop (nalu_len p) p in
    elim (Bool-cases (length rest == 0)) [
      | inl e ↦ rw e (out, refl)
      | inr e ↦ elim (Bool-cases (start_len rest == 0)) [
        | inr code ↦
            let shorter : length (drop (nalu_len p) p) < f = ground arith in
            let ih = loop-ends f src (drop (nalu_len p) p) (add_nalu out p) shorter in
            rw (e, code) ih
        | inl bare ↦ elim (Bool-cases (length out == 0)) [
          | inl first ↦ rw (e, bare, first) (be32 (length src) ++ src, refl)
          | inr later ↦ rw (e, bare, later) (out, refl)
        ]
      ]
    ]

-- On any buffer annex_b_to_avcc ends.
pub annex_b_to_avcc_ends : (src : List ℕ) → (res : List ℕ) × (annex_b_to_avcc src ≡ some res)
unfolding annex_b_to_avcc
annex_b_to_avcc_ends src = loop-ends (length src + 1) src src [] (omega arith)
