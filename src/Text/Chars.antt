-- ===== src/Text/Chars.antt =====
-- Characters and their classes in the "C" locale, as the text code of the library uses them:
-- `tolower`, `toupper`, `isspace`, and the trims written with them. A char is its code.
use Prim.Native.Char.{code}
use Prim.Native.String.{String}
use rtsp_sdk.Common.{
  ℕ, ◌+◌, ◌-◌, ◌≡◌, ◌≢◌, refl, Bool, false, ◌&&◌, ◌||◌, List, [], ◌∷◌, ◌++◌, map, All, leb, ◌==◌,
  if◌then◌else◌, arith,
}

abbrev pub Text : Type 0
Text = List ℕ

-- The codes of a literal.
abbrev pub codes : String → Text
codes String.[] = []
codes (String.◌∷◌ c s) = code c ∷ codes s

unfoldable pub to_lower : ℕ → ℕ
to_lower c = if leb b'A' c && leb c b'Z' then c + 32 else c

unfoldable pub to_upper : ℕ → ℕ
to_upper c = if leb b'a' c && leb c b'z' then c - 32 else c

abbrev pub lower : Text → Text
lower s = map to_lower s

abbrev pub upper : Text → Text
upper s = map to_upper s

-- `isspace`.
unfoldable pub is_space : ℕ → Bool
is_space c = c == 32 || leb 9 c && leb c 13

-- A member of " \t".
unfoldable pub is_blank : ℕ → Bool
is_blank c = c == 32 || c == 9

unfoldable pub is_digit : ℕ → Bool
is_digit c = leb b'0' c && leb c b'9'

module _ (p : ℕ → Bool) where
  unfoldable pub drop_while : Text → Text
  drop_while [] = []
  drop_while (c ∷ s) = if p c then drop_while s else c ∷ s

  unfoldable pub take_while : Text → Text
  take_while [] = []
  take_while (c ∷ s) = if p c then c ∷ take_while s else []

  unfoldable pub cons_unless : ℕ → Text → Text
  cons_unless c [] = if p c then [] else c ∷ []
  cons_unless c (d ∷ s) = c ∷ d ∷ s

  -- Without the matching characters at the end.
  unfoldable pub drop_end : Text → Text
  drop_end [] = []
  drop_end (c ∷ s) = cons_unless c (drop_end s)

  unfoldable pub trim : Text → Text
  trim s = drop_end (drop_while s)

-- No character of the text is the given one.
abbrev pub Lacks : ℕ → Text → Type 0
Lacks b = All (λ c. c ≢ b)

-- No character of the text is in the class.
abbrev pub Free : (ℕ → Bool) → Text → Type 0
Free p = All (λ c. p c ≡ false)

-- A text starts with a character outside of the class, and ends with one.
abbrev pub Trimmed : (ℕ → Bool) → Text → Type 0
Trimmed p s = trim p s ≡ s

module _ (p : ℕ → Bool) where
  pub drop_while-Free : (s : Text) → Free p s → drop_while p s ≡ s
  unfolding drop_while
  drop_while-Free [] h = refl
  drop_while-Free (c ∷ s) h = rw h.0 refl

  pub drop_end-Free : (s : Text) → Free p s → drop_end p s ≡ s
  unfolding drop_end cons_unless
  drop_end-Free [] h = refl
  drop_end-Free (c ∷ []) h = rw h.0 refl
  drop_end-Free (c ∷ (d ∷ s)) h = rw (drop_end-Free (d ∷ s) h.1) refl

  pub trim-Free : (s : Text) → Free p s → Trimmed p s
  unfolding trim
  trim-Free s h = rw (drop_while-Free s h, drop_end-Free s h) refl

pub to_lower_idem : (c : ℕ) → to_lower (to_lower c) ≡ to_lower c
unfolding to_lower
to_lower_idem c = ground arith

pub lower_idem : (s : Text) → lower (lower s) ≡ lower s
lower_idem [] = refl
lower_idem (c ∷ s) = cc (to_lower_idem c, lower_idem s)

pub lower-append : (s t : Text) → lower (s ++ t) ≡ lower s ++ lower t
lower-append [] t = refl
lower-append (c ∷ s) t = cc (lower-append s t)
