-- ===== src/Text/Search.antt =====
-- Comparing and searching texts: `==`, `<` and `find` of std::string.
use rtsp_sdk.Common.{
  ℕ, suc, ◌≡◌, refl, Bool, true, false, ◌&&◌, Option, none, some, [], ◌∷◌, ◌++◌, length, drop, ◌↔◌,
  ltb, ◌==◌, if◌then◌else◌, arith,
}
use rtsp_sdk.Text.Chars.{Text, Lacks}

unfoldable pub same : Text → Text → Bool
same [] [] = true
same [] (d ∷ t) = false
same (c ∷ s) [] = false
same (c ∷ s) (d ∷ t) = (c == d) && same s t

-- `<` of std::string.
unfoldable pub before : Text → Text → Bool
before [] [] = false
before [] (d ∷ t) = true
before (c ∷ s) [] = false
before (c ∷ s) (d ∷ t) = if ltb c d then true else (c == d) && before s t

-- `s.rfind(prefix, 0) == 0`.
unfoldable pub starts_with : Text → Text → Bool
starts_with [] s = true
starts_with (d ∷ t) [] = false
starts_with (d ∷ t) (c ∷ s) = (c == d) && starts_with t s

abbrev pub next_index : Option ℕ → Option ℕ
next_index none = none
next_index (some i) = some (suc i)

-- `find`; `none` is `npos`.
unfoldable pub find : Text → Text → Option ℕ
find needle [] = if starts_with needle [] then some 0 else none
find needle (c ∷ s) = if starts_with needle (c ∷ s) then some 0 else next_index (find needle s)

unfoldable pub find_char : ℕ → Text → Option ℕ
find_char d [] = none
find_char d (c ∷ s) = if c == d then some 0 else next_index (find_char d s)

abbrev pub is_found : Option ℕ → Bool
is_found none = false
is_found (some i) = true

unfoldable pub contains : Text → Text → Bool
contains needle s = is_found (find needle s)

unfoldable pub is_empty : Text → Bool
is_empty [] = true
is_empty (c ∷ s) = false

pub same_self : (s : Text) → same s s ≡ true
unfolding same
same_self [] = refl
same_self (c ∷ s) = grind (arith, same_self s)

pub same→≡ : (s t : Text) → same s t ≡ true → s ≡ t
unfolding same
same→≡ [] [] h = refl
same→≡ [] (d ∷ t) h = cc
same→≡ (c ∷ s) [] h = cc
same→≡ (c ∷ s) (d ∷ t) h = grind (arith, same→≡ s t)

pub same_iff : (s t : Text) → (same s t ≡ true) ↔ (s ≡ t)
same_iff s t = (same→≡ s t, λ e. rw e (same_self t))

pub starts_with-append : (s t : Text) → starts_with s (s ++ t) ≡ true
unfolding starts_with
starts_with-append [] t = refl
starts_with-append (c ∷ s) t = grind (arith, starts_with-append s t)

-- The first place of a character that a text lacks is right behind the text.
pub starts_with-split : (s t : Text) → starts_with s t ≡ true → t ≡ s ++ drop (length s) t
unfolding starts_with
starts_with-split [] t h = refl
starts_with-split (c ∷ s) [] h = cc
starts_with-split (c ∷ s) (d ∷ t) h = grind (arith, starts_with-split s t)

pub find_char-append :
    (d : ℕ) (s t : Text) → Lacks d s → find_char d (s ++ (d ∷ t)) ≡ some (length s)
unfolding find_char
find_char-append d [] t h = ground arith
find_char-append d (c ∷ s) t h = grind (arith, find_char-append d s t h.1)

pub find_char-Lacks : (d : ℕ) (s : Text) → Lacks d s → find_char d s ≡ none
unfolding find_char
find_char-Lacks d [] h = refl
find_char-Lacks d (c ∷ s) h = grind (arith, find_char-Lacks d s h.1)

-- A needle that starts at the front is found there, one that does not is sought further on.
pub find_here : (needle s : Text) → starts_with needle s ≡ true → find needle s ≡ some 0
unfolding find
find_here needle [] h = rw h refl
find_here needle (c ∷ s) h = rw h refl

pub find_later :
    (needle : Text) (c : ℕ) (s : Text) (i : ℕ)
    → starts_with needle (c ∷ s) ≡ false
    → find needle s ≡ some i
    → find needle (c ∷ s) ≡ some (suc i)
unfolding find
find_later needle c s i h e = rw (h, e) refl
