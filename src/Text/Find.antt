-- ===== src/Text/Find.antt =====
-- `find` of std::string in a text and in its front.
use rtsp_sdk.Common.{
  ℕ, suc, ◌+◌, ◌≤◌, ◌<◌, ◌≡◌, refl, sym, ap, ◌∙◌, true, false, ◌&&◌, ◌⊎◌, inl, inr, Option, none,
  some, [], ◌∷◌, ◌++◌, length, ◌==◌, arith, Bool-cases,
}
use rtsp_sdk.Text.Chars.{Text}
use rtsp_sdk.Text.Search.{starts_with, find, next_index, find_here, find_later}

-- A needle that does not fit is not there.
starts_with-short : (n s : Text) → length s < length n → starts_with n s ≡ false
unfolding starts_with
starts_with-short [] s h = absurd (omega arith)
starts_with-short (d ∷ n) [] h = refl
starts_with-short (d ∷ n) (c ∷ s) h = grind (arith, starts_with-short n s (omega arith))

starts_with-fits : (n s : Text) → starts_with n s ≡ true → length n ≤ length s
unfolding starts_with
starts_with-fits [] s h = omega arith
starts_with-fits (d ∷ n) [] h = cc
starts_with-fits (d ∷ n) (c ∷ s) h = grind (arith, starts_with-fits n s)

-- A needle in front stays in front, whatever comes behind, and where there is room for it that does
-- not matter.
starts_with_mono : (n s t : Text) → starts_with n s ≡ true → starts_with n (s ++ t) ≡ true
unfolding starts_with
starts_with_mono [] s t h = refl
starts_with_mono (d ∷ n) [] t h = cc
starts_with_mono (d ∷ n) (c ∷ s) t h = grind (arith, starts_with_mono n s t)

starts_with-front : (n s t : Text) → starts_with n (s ++ t) ≡ false → starts_with n s ≡ false
starts_with-front n s t h = elim (Bool-cases (starts_with n s)) [
  | inl y ↦ absurd (true_not_false (sym (starts_with_mono n s t y) ∙ h))
  | inr k ↦ k
]
  where
    true_not_false : true ≡ false → ⊥
    true_not_false e = cc

starts_with-more : (n s t : Text) → length n ≤ length s → starts_with n (s ++ t) ≡ starts_with n s
unfolding starts_with
starts_with-more [] s t h = refl
starts_with-more (d ∷ n) [] t h = absurd (omega arith)
starts_with-more (d ∷ n) (c ∷ s) t h =
    ap (λ b. (c == d) && b) (starts_with-more n s t (omega arith))

find-short : (n s : Text) → length s < length n → find n s ≡ none
unfolding find
find-short n [] h = rw (starts_with-short n [] h) refl
find-short n (c ∷ s) h = rw (starts_with-short n (c ∷ s) h, find-short n s (omega arith)) refl

-- A needle is found here, or further on.
abbrev Further : Text → ℕ → Text → ℕ → Type 0
Further n c s i = (starts_with n (c ∷ s) ≡ false) × ((j : ℕ) × (find n s ≡ some j) × (i ≡ suc j))

number : ℕ → Option ℕ → ℕ
number d none = d
number d (some k) = k

next-some : (o : Option ℕ) (i : ℕ) → next_index o ≡ some i → (j : ℕ) × (o ≡ some j) × (i ≡ suc j)
unfolding number
next-some none i h = cc
next-some (some j) i h = (j, refl, sym (ap (number 0) h))

not_here :
    (n : Text) (c : ℕ) (s : Text)
    → starts_with n (c ∷ s) ≡ false
    → find n (c ∷ s) ≡ next_index (find n s)
unfolding find
not_here n c s h = rw h refl

found-cases :
    (n : Text) (c : ℕ) (s : Text) (i : ℕ)
    → find n (c ∷ s) ≡ some i
    → ((starts_with n (c ∷ s) ≡ true) × (i ≡ 0)) ⊎ Further n c s i
unfolding find number
found-cases n c s i h = elim (Bool-cases (starts_with n (c ∷ s))) [
  | inl y ↦ inl (y, sym (ap (number i) (sym (find_here n (c ∷ s) y) ∙ h)))
  | inr k ↦ inr (k, next-some (find n s) i (sym (not_here n c s k) ∙ h))
]

-- In no text.
found_in_nil : (n t : Text) (i : ℕ) → find n [] ≡ some i → (n ≡ []) × (i ≡ 0)
unfolding find starts_with number
found_in_nil [] t i h = (refl, sym (ap (number i) h))
found_in_nil (d ∷ n) t i h = cc

find_nil : (t : Text) → find [] t ≡ some 0
unfolding starts_with
find_nil t = find_here [] t refl

-- A needle that is found fits.
find-fits : (n s : Text) (i : ℕ) → find n s ≡ some i → i + length n ≤ length s
find-fits n [] i h =
    let (e, z) = found_in_nil n [] i h in let l : length n ≡ 0 = ap length e in omega arith
find-fits n (c ∷ s) i h = elim (found-cases n c s i h) [
  | inl (y, z) ↦ let f = starts_with-fits n (c ∷ s) y in omega arith
  | inr (k, (j, e, z)) ↦ let f = find-fits n s j e in omega arith
]

-- What was found in front is found in the whole, and what was found in the whole and fits the front
-- is found there; if it does not fit, nothing is.
pub find-more : (n s t : Text) (i : ℕ) → find n s ≡ some i → find n (s ++ t) ≡ some i
find-more n [] t i h = let (e, z) = found_in_nil n [] i h in rw (e, z) (find_nil t)
find-more n (c ∷ s) t i h = elim (found-cases n c s i h) [
  | inl (y, z) ↦ rw z (find_here n (c ∷ (s ++ t)) (starts_with_mono n (c ∷ s) t y))
  | inr (k, (j, e, z)) ↦
      let f = find-fits n s j e in
      rw z (
        find_later n c (s ++ t) j (starts_with-more n (c ∷ s) t (omega arith) ∙ k)
          (find-more n s t j e))
]

pub find-front :
    (n s t : Text) (i : ℕ) → find n (s ++ t) ≡ some i → i + length n ≤ length s → find n s ≡ some i
find-front [] s t i h k = find_nil s ∙ (sym (find_nil (s ++ t)) ∙ h)
find-front (d ∷ n) [] t i h k = absurd (omega arith)
find-front (d ∷ n) (c ∷ s) t i h k = elim (found-cases (d ∷ n) c (s ++ t) i h) [
  | inl (y, z) ↦
      rw z (find_here (d ∷ n) (c ∷ s) (sym (starts_with-more (d ∷ n) (c ∷ s) t (omega arith)) ∙ y))
  | inr (m, (j, e, z)) ↦ rw z (
      find_later (d ∷ n) c s j (starts_with-front (d ∷ n) (c ∷ s) t m)
        (find-front (d ∷ n) s t j e (omega arith)))
]

pub find-cut :
    (n s t : Text) (i : ℕ) → find n (s ++ t) ≡ some i → length s < i + length n → find n s ≡ none
unfolding find starts_with number
find-cut [] s t i h k =
    let z : i ≡ 0 = ap (number i) (sym h ∙ find_nil (s ++ t)) in absurd (omega arith)
find-cut (d ∷ n) [] t i h k = refl
find-cut (d ∷ n) (c ∷ s) t i h k = elim (found-cases (d ∷ n) c (s ++ t) i h) [
  | inl (y, z) ↦ find-short (d ∷ n) (c ∷ s) (omega arith)
  | inr (m, (j, e, z)) ↦
      not_here (d ∷ n) c s (starts_with-front (d ∷ n) (c ∷ s) t m)
      ∙ ap next_index (find-cut (d ∷ n) s t j e (omega arith))
]
