-- ===== src/Server/Paths/Units.antt =====
-- `forEachAnnexBNalu` of src/server/rtsp_server.cpp on units behind start codes of four bytes.
use rtsp_sdk.Common.{
  ℕ, suc, ◌+◌, ◌-◌, ◌<◌, ◌≡◌, refl, ap, ◌∙◌, ◌⊎◌, true, false, List, [], ◌∷◌, ◌++◌, subst,
  append_assoc, length, take-append, drop-append, All, ltb, leb, lt→ltb, arith,
}
use rtsp_sdk.Common.Bytes.{at, lengths}
use rtsp_sdk.Rtp.Nalu.AnnexB.{Clean, IsNalu, annex_b}
use rtsp_sdk.Server.Paths.Extract.{code_here, starts_from, span, spans, units_at, annex_b_units}

code_here-Clean : (a : ℕ) (p : List ℕ) → 0 < a ⊎ (0 < at p 0 ⊎ 1 < at p 1) → code_here (a ∷ p) ≡ 0
unfolding code_here
code_here-Clean a [] h = ground arith
code_here-Clean a (b ∷ []) h = ground arith
code_here-Clean a (b ∷ (c ∷ p)) h = ground arith

behind :
    (a : ℕ) (u tail : List ℕ)
    → at tail 0 ≡ 0
    → at tail 1 ≡ 0
    → 0 < a ⊎ (0 < at u 0 ⊎ 1 < at u 1)
    → 0 < a ⊎ (0 < at (u ++ tail) 0 ⊎ 1 < at (u ++ tail) 1)
behind a [] tail z0 z1 h = ground arith
behind a (b ∷ []) tail z0 z1 h = ground arith
behind a (b ∷ (c ∷ u)) tail z0 z1 h = h

starts-next :
    (i c : ℕ) (s : List ℕ)
    → code_here (c ∷ s) ≡ 0
    → starts_from i 0 (c ∷ s) ≡ starts_from (suc i) 0 s
unfolding starts_from
starts-next i c s h = rw h refl

-- The scan runs through a clean unit.
starts-Clean :
    (i : ℕ) (u tail : List ℕ)
    → at tail 0 ≡ 0
    → at tail 1 ≡ 0
    → Clean u
    → starts_from i 0 (u ++ tail) ≡ starts_from (i + length u) 0 tail
starts-Clean i [] tail z0 z1 h = let e : i + length {A = ℕ} [] ≡ i = omega arith in rw e refl
starts-Clean i (a ∷ u) tail z0 z1 h =
    let e : suc i + length u ≡ i + length (a ∷ u) = omega arith in
    starts-next i a (u ++ tail) (code_here-Clean a (u ++ tail) (behind a u tail z0 z1 h.0))
    ∙ (starts-Clean (suc i) u tail z0 z1 h.1 ∙ ap (λ k. starts_from k 0 tail) e)

starts-code :
    (i : ℕ) (rest : List ℕ)
    → starts_from i 0 (0 ∷ 0 ∷ 0 ∷ 1 ∷ rest) ≡ (i, i + 4) ∷ starts_from (i + 4) 0 rest
unfolding starts_from code_here
starts-code i rest =
    let long : leb (length (0 ∷ 0 ∷ 0 ∷ 1 ∷ rest)) 3 ≡ false = ground arith in
    let e : suc (suc (suc (suc i))) ≡ i + 4 = omega arith in rw (long, e) refl

starts_of : ℕ → List (List ℕ) → List (ℕ × ℕ)
starts_of i [] = []
starts_of i (u ∷ us) = (i, i + 4) ∷ starts_of (i + 4 + length u) us

front-zero : (us : List (List ℕ)) → (at (annex_b us) 0 ≡ 0) × (at (annex_b us) 1 ≡ 0)
unfolding annex_b
front-zero [] = (refl, refl)
front-zero (u ∷ us) = (refl, refl)

starts-annex_b :
    (i : ℕ) (us : List (List ℕ)) → All IsNalu us → starts_from i 0 (annex_b us) ≡ starts_of i us
unfolding annex_b starts_of starts_from
starts-annex_b i [] h = refl
starts-annex_b i (u ∷ us) h =
    let (z0, z1) = front-zero us in
    starts-code i (u ++ annex_b us)
    ∙ ap (◌∷◌ (i, i + 4))
        (starts-Clean (i + 4) u (annex_b us) z0 z1 h.0.1 ∙ starts-annex_b (i + 4 + length u) us h.1)

-- A unit that stands behind some bytes, up to its end.
unit_between :
    (pre u rest : List ℕ) (j k : ℕ) (units : List (List ℕ))
    → 0 < length u
    → j ≡ length pre
    → k ≡ length pre + length u
    → span (pre ++ (u ++ rest)) j k units ≡ u ∷ units
unit_between pre u rest j k units h ej ek =
    let more : ltb j k ≡ true = lt→ltb j k (omega arith) in
    let size : k - j ≡ length u = omega arith in
    rw (more, size, drop-append pre (u ++ rest) j ej, take-append u rest (length u) refl) refl

code : List ℕ
code = 0 ∷ 0 ∷ 0 ∷ 1 ∷ []

unit_spans :
    (pre : List ℕ) (u : List ℕ) (us : List (List ℕ))
    → All IsNalu (u ∷ us)
    → spans (pre ++ annex_b (u ∷ us)) (starts_of (length pre) (u ∷ us)) ≡ u ∷ us
unfolding annex_b starts_of spans code
unit_spans pre u [] h =
    let src = pre ++ (0 ∷ 0 ∷ 0 ∷ 1 ∷ (u ++ [])) in
    let front = append_assoc pre code (u ++ []) in
    let here : length pre + 4 ≡ length (pre ++ code) = omega lengths in
    let end : length src ≡ length (pre ++ code) + length u = omega lengths in
    subst (λ x. span x (length pre + 4) (length src) [] ≡ u ∷ []) front
      (unit_between (pre ++ code) u [] (length pre + 4) (length src) [] h.0.0 here end)
unit_spans pre u (v ∷ vs) h =
    let rest = annex_b (v ∷ vs) in
    let src = pre ++ (0 ∷ 0 ∷ 0 ∷ 1 ∷ (u ++ rest)) in
    let front : (pre ++ code) ++ (u ++ rest) ≡ src = append_assoc pre code (u ++ rest) in
    let back : (pre ++ (code ++ u)) ++ rest ≡ src = simp append_assoc in
    let here : length pre + 4 ≡ length (pre ++ code) = omega lengths in
    let end : length pre + 4 + length u ≡ length (pre ++ code) + length u = omega lengths in
    let size : length (pre ++ (code ++ u)) ≡ length pre + 4 + length u = omega lengths in
    let others : spans src (starts_of (length pre + 4 + length u) (v ∷ vs)) ≡ v ∷ vs =
      subst (λ x. spans x (starts_of (length pre + 4 + length u) (v ∷ vs)) ≡ v ∷ vs) back
        (subst (λ k. spans ((pre ++ (code ++ u)) ++ rest) (starts_of k (v ∷ vs)) ≡ v ∷ vs) size
          (unit_spans (pre ++ (code ++ u)) v vs h.1)) in
    ap (span src (length pre + 4) (length pre + 4 + length u)) others
    ∙ subst (λ x. span x (length pre + 4) (length pre + 4 + length u) (v ∷ vs) ≡ u ∷ (v ∷ vs)) front
        (unit_between (pre ++ code) u rest (length pre + 4) (length pre + 4 + length u) (v ∷ vs)
          h.0.0 here end)

-- On units, not empty and clean, each behind a start code of four bytes, the function is called with
-- just these units, in order.
pub annex_b_units-annex_b : (us : List (List ℕ)) → All IsNalu us → annex_b_units (annex_b us) ≡ us
unfolding annex_b_units annex_b starts_of
annex_b_units-annex_b [] h = refl
annex_b_units-annex_b (u ∷ us) h =
    ap (units_at (annex_b (u ∷ us))) (starts-annex_b 0 (u ∷ us) h) ∙ unit_spans [] u us h
