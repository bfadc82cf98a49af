-- ===== src/Rtp/Nalu/RoundTrip.antt =====
-- `parseNalusInternal` of src/rtsp-common/rtp_packer.cpp on units behind start codes of four bytes.
use rtsp_sdk.Common.{
  ℕ, zero, suc, ◌+◌, ◌-◌, ◌≤◌, ◌<◌, ◌≡◌, refl, sym, ap, ◌∙◌, inl, inr, none, some, List, [], ◌∷◌,
  ◌++◌, append-nil, append_assoc, length, drop, All, drop-append, length-append, ltb, Bool-cases,
  lt→ltb, ltb→le, ltb→lt, arith,
}
use rtsp_sdk.Common.Bytes.{at, lengths}
use rtsp_sdk.Rtp.Frame.{NaluUnit}
use rtsp_sdk.Rtp.Nalu.{
  find_start_code, close_back, no_more_codes, open_nalu, parse_loop, reverse_onto, in_order,
  parse_nalus,
}
use rtsp_sdk.Rtp.Nalu.AnnexB.{IsNalu, annex_b, unit_at, units_of, find-short, find-Clean, find-code}
use rtsp_sdk.Rtp.Nalu.Steps.{loop-end, loop-none, loop-code}

close-open :
    (r : List ℕ) (k : ℕ) (done : List NaluUnit)
    → close_back (unit_at r 0 ∷ done) k ≡ unit_at r k ∷ done
unfolding close_back unit_at
close-open r k done = refl

close-closed :
    (r : List ℕ) (k j : ℕ) (done : List NaluUnit)
    → 0 < k
    → close_back (unit_at r k ∷ done) j ≡ unit_at r k ∷ done
unfolding close_back unit_at
close-closed r zero j done h = absurd (omega arith)
close-closed r (suc k) j done h = ground arith

no_more-close :
    (src : List ℕ) (offset : ℕ) (n : NaluUnit) (done : List NaluUnit)
    → no_more_codes src offset (n ∷ done) ≡ close_back (n ∷ done) (length src - offset)
unfolding no_more_codes
no_more-close src offset n done = refl

at-append : (pre r : List ℕ) → at (pre ++ r) (length pre) ≡ at r 0
at-append [] r = refl
at-append (x ∷ pre) r = at-append pre r

open-unit :
    (pre r old : List ℕ) (start : ℕ) (done : List NaluUnit)
    → 0 < length r
    → open_nalu (pre ++ r) start (length pre) (unit_at old 0 ∷ done)
      ≡ unit_at r 0 ∷ (unit_at old start ∷ done)
unfolding open_nalu close_back unit_at
open-unit pre r old start done h =
    rw
      (
        lt→ltb (length pre) (length (pre ++ r)) (omega lengths),
        at-append pre r,
        drop-append pre r (length pre) refl,
      )
      refl

open-first :
    (pre r : List ℕ) (start : ℕ)
    → 0 < length r
    → open_nalu (pre ++ r) start (length pre) [] ≡ unit_at r 0 ∷ []
unfolding open_nalu close_back unit_at
open-first pre r start h =
    rw
      (
        lt→ltb (length pre) (length (pre ++ r)) (omega lengths),
        at-append pre r,
        drop-append pre r (length pre) refl,
      )
      refl

-- The last unit: no code is found behind it.
last-unit :
    (f : ℕ) (pre u : List ℕ) (done : List NaluUnit)
    → IsNalu u
    → parse_loop (suc f) (pre ++ u) (length pre) (unit_at u 0 ∷ done)
      ≡ some (unit_at u (length u) ∷ done)
last-unit f pre u done h =
    let d = drop-append pre u (length pre) refl in
    let e : length (pre ++ u) - length pre ≡ length u = omega lengths in
    elim (Bool-cases (ltb (length pre + 3) (length (pre ++ u)))) [
      | inl more ↦
          let nothing : find_start_code (drop (length pre) (pre ++ u)) 0 ≡ none = rw d (
            rw (sym (append-nil u))
              (find-Clean u [] 0 refl refl h.1 ∙ find-short [] (0 + length u) (omega arith))) in
          loop-none f (pre ++ u) (length pre) (unit_at u 0 ∷ done)
            (ltb→lt (length pre + 3) (length (pre ++ u)) more) nothing
          ∙ rw
              (
                no_more-close (pre ++ u) (length pre) (unit_at u 0) done,
                e,
                close-open u (length u) done,
                close-closed u (length u) (length u) done h.0,
              )
              refl
      | inr done_here ↦
          loop-end f (pre ++ u) (length pre) (unit_at u 0 ∷ done)
            (ltb→le (length pre + 3) (length (pre ++ u)) done_here)
          ∙ rw (e, close-open u (length u) done) refl
    ]

four : List ℕ
four = 0 ∷ 0 ∷ 0 ∷ 1 ∷ []

regroup : (pre u w : List ℕ) → pre ++ (u ++ (0 ∷ 0 ∷ 0 ∷ 1 ∷ w)) ≡ (pre ++ (u ++ four)) ++ w
unfolding four
regroup pre u w = simp append_assoc

-- The loop behind a start code, the last unit open.
parse-units :
    (f : ℕ) (pre u : List ℕ) (us : List (List ℕ)) (done : List NaluUnit)
    → length us < f
    → IsNalu u
    → All IsNalu us
    → parse_loop f (pre ++ (u ++ annex_b us)) (length pre) (unit_at (u ++ annex_b us) 0 ∷ done)
      ≡ some (reverse_onto (units_of (u ∷ us)) done)
unfolding annex_b units_of reverse_onto four
parse-units zero pre u us done fuel hu hus = absurd (omega arith)
parse-units (suc f) pre u [] done fuel hu hus =
    let e = append-nil u in rw e (last-unit f pre u done hu)
parse-units (suc f) pre u (v ∷ vs) done fuel hu hus =
    let rest = v ++ annex_b vs in
    let tail : List ℕ = 0 ∷ 0 ∷ 0 ∷ 1 ∷ rest in
    let src = pre ++ (u ++ tail) in
    let long = length-append v (annex_b vs) in
    let found : find_start_code (drop (length pre) src) 0 ≡ some (0 + length u, 4) =
      rw (drop-append pre (u ++ tail) (length pre) refl) (
        find-Clean u tail 0 refl refl hu.1
        ∙ find-code rest (0 + length u) (omega (arith, hus.0.0))) in
    let zero_add : 0 + length u ≡ length u = omega arith in
    let pre' = pre ++ (u ++ four) in
    let len : length pre + (0 + length u) + 4 ≡ length pre' = omega lengths in
    loop-code f src (length pre) (unit_at (u ++ tail) 0 ∷ done) (0 + length u) 4
      (omega (lengths, hus.0.0)) found
    ∙ rw
        (
          len,
          regroup pre u rest,
          open-unit pre' rest (u ++ tail) (0 + length u) done (omega (arith, hus.0.0)),
          zero_add,
        )
        (parse-units f pre' v vs (unit_at (u ++ tail) (length u) ∷ done) (omega arith) hus.0 hus.1)

reverse-reverse :
    (xs ys zs : List NaluUnit) → reverse_onto (reverse_onto xs ys) zs ≡ reverse_onto ys (xs ++ zs)
unfolding reverse_onto
reverse-reverse [] ys zs = refl
reverse-reverse (x ∷ xs) ys zs = reverse-reverse xs (x ∷ ys) zs

in_order-reverse : (xs : List NaluUnit) → in_order (some (reverse_onto xs [])) ≡ some xs
unfolding in_order reverse_onto
in_order-reverse xs = ap some (reverse-reverse xs [] [] ∙ append-nil xs)

units-length : (us : List (List ℕ)) → length us ≤ length (annex_b us)
unfolding annex_b
units-length [] = omega arith
units-length (u ∷ us) = omega (lengths, units-length us)

parse-first :
    (u : List ℕ) (us : List (List ℕ))
    → IsNalu u
    → All IsNalu us
    → parse_loop (length (annex_b (u ∷ us)) + 1) (annex_b (u ∷ us)) 0 []
      ≡ some (reverse_onto (units_of (u ∷ us)) [])
unfolding annex_b four
parse-first u us hu hus =
    let rest = u ++ annex_b us in
    let src : List ℕ = 0 ∷ 0 ∷ 0 ∷ 1 ∷ rest in
    let long = length-append u (annex_b us) in
    let fuel : length src + 1 ≡ suc (length src) = omega arith in
    let few = units-length us in
    rw fuel (
      loop-code (length src) src 0 [] 0 4 (omega (arith, hu.0))
        (find-code rest 0 (omega (arith, hu.0)))
      ∙ rw (open-first four rest 0 (omega (arith, hu.0)))
          (parse-units (length src) four u us [] (omega arith) hu hus))

parse-nothing :
    in_order (parse_loop (length (annex_b []) + 1) (annex_b []) 0 []) ≡ some (units_of [])
unfolding annex_b in_order parse_loop close_back reverse_onto units_of
parse-nothing = refl

-- A buffer of units, each not empty and clean, behind start codes of four bytes: parse_nalus gives
-- these units in order, each with its bytes, its length and its type.
pub parse_nalus-annex_b :
    (us : List (List ℕ)) → All IsNalu us → parse_nalus (annex_b us) ≡ some (units_of us)
unfolding parse_nalus
parse_nalus-annex_b [] h = parse-nothing
parse_nalus-annex_b (u ∷ us) h =
    rw (parse-first u us h.0 h.1) (in_order-reverse (units_of (u ∷ us)))
