-- ===== src/Text/Match.antt =====
-- The patterns of src/rtsp-common/sdp.cpp on texts that were put together.
use rtsp_sdk.Common.{
  ℕ, zero, suc, ◌<◌, ◌^◌, ◌≡◌, ◌≢◌, refl, sym, ap, ◌∙◌, Bool, true, false, Option, none, some, List,
  [], ◌∷◌, ◌++◌, All, append-nil, drop-append, length, arith, lt→ltb,
}
use rtsp_sdk.Common.Bytes.{at}
use rtsp_sdk.Text.Chars.{
  Text, Lacks, Free, lower, to_lower, is_digit, is_space, take_while, drop_while, trim-Free,
}
use rtsp_sdk.Text.Search.{starts_with, starts_with-append}
use rtsp_sdk.Text.Base64.{base64_chars, char_at, base64_encode}
use rtsp_sdk.Text.Numbers.{
  digits, Digits, digits-Digits, digits-cons, value, value-digits, unsigned_value, if_below,
  parse_uint32_safe, trim_copy, Digits-Free,
}
use rtsp_sdk.Text.Patterns.{literal, many, blanks, number, search, is_item_char}

-- A text that no character of a class starts.
abbrev pub Stops : (ℕ → Bool) → Text → Type 0
Stops p [] = Unit
Stops p (c ∷ s) = p c ≡ false

abbrev pub Within : (ℕ → Bool) → Text → Type 0
Within p = All (λ c. p c ≡ true)

module _ (p : ℕ → Bool) where
  take_while-Within : (u rest : Text) → Within p u → Stops p rest → take_while p (u ++ rest) ≡ u
  unfolding take_while
  take_while-Within [] [] h k = refl
  take_while-Within [] (c ∷ rest) h k = rw k refl
  take_while-Within (c ∷ u) rest h k = rw (h.0) (ap (◌∷◌ c) (take_while-Within u rest h.1 k))

  drop_while-Within : (u rest : Text) → Within p u → Stops p rest → drop_while p (u ++ rest) ≡ rest
  unfolding drop_while
  drop_while-Within [] [] h k = refl
  drop_while-Within [] (c ∷ rest) h k = rw k refl
  drop_while-Within (c ∷ u) rest h k = rw (h.0) (drop_while-Within u rest h.1 k)

  pub many-Within :
      (u rest : Text) → u ≢ [] → Within p u → Stops p rest → many p (u ++ rest) ≡ some (u, rest)
  unfolding many
  many-Within [] rest n h k = absurd (n refl)
  many-Within (c ∷ u) rest n h k =
      rw (take_while-Within (c ∷ u) rest h k, drop_while-Within (c ∷ u) rest h k) refl

pub digits-some : (n : ℕ) → digits n ≢ []
digits-some n e = let (c, s, f) = digits-cons n in cc

pub number-digits :
    (n : ℕ) (rest : Text) → Stops is_digit rest → number (digits n ++ rest) ≡ some (digits n, rest)
unfolding number
number-digits n rest h = many-Within is_digit (digits n) rest (digits-some n) (digits-Digits n) h

unsigned_value-Digits : (t : Text) → t ≢ [] → Digits t → unsigned_value t ≡ value t
unfolding unsigned_value is_digit
unsigned_value-Digits [] n h = absurd (n refl)
unsigned_value-Digits (d ∷ t) n h = ground arith

pub parse_uint32_safe-digits : (n : ℕ) → n < 2 ^ 32 → parse_uint32_safe (digits n) ≡ some n
unfolding parse_uint32_safe trim_copy if_below
parse_uint32_safe-digits n h =
    rw
      (
        trim-Free is_space (digits n) (Digits-Free (digits n) (digits-Digits n)),
        unsigned_value-Digits (digits n) (digits-some n) (digits-Digits n),
        value-digits n,
        lt→ltb n (2 ^ 32) h,
      )
      refl

lower-append : (s t : Text) → lower (s ++ t) ≡ lower s ++ lower t
lower-append [] t = refl
lower-append (c ∷ s) t = ap (◌∷◌ (to_lower c)) (lower-append s t)

pub literal-append : (key rest : Text) → literal key (key ++ rest) ≡ some rest
unfolding literal
literal-append key rest =
    rw
      (
        lower-append key rest,
        starts_with-append (lower key) (lower rest),
        drop-append key rest (length key) refl,
      )
      refl

pub number_last : (n : ℕ) → number (digits n) ≡ some (digits n, [])
number_last n = ap number (sym (append-nil (digits n))) ∙ number-digits n [] tt

-- One blank in front of a number.
no_space_first : (t rest : Text) → t ≢ [] → Free is_space t → Stops is_space (t ++ rest)
no_space_first [] rest n h = absurd (n refl)
no_space_first (c ∷ t) rest n h = h.0

pub blanks-digits :
    (n : ℕ) (rest : Text) → blanks (32 ∷ (digits n ++ rest)) ≡ some (digits n ++ rest)
unfolding blanks is_space
blanks-digits n rest =
    rw
      (many-Within is_space (32 ∷ []) (digits n ++ rest) (λ e. cc) (refl, tt)
        (no_space_first (digits n) rest (digits-some n) (Digits-Free (digits n) (digits-Digits n))))
      refl

pub search_first {ℓ} :
    {A : Type ℓ} (f : Text → Option A) (s : Text) (a : A) → f s ≡ some a → search f s ≡ some a
unfolding search
search_first f [] a e = e
search_first f (c ∷ s) a e = rw e refl

-- A key with a '-' does not start in a text without one.
lower-Lacks : (s : Text) → Lacks b'-' s → Lacks b'-' (lower s)
unfolding to_lower
lower-Lacks [] h = tt
lower-Lacks (c ∷ s) h = (ground arith, lower-Lacks s h.1)

starts_with-Lacks : (k t s : Text) → Lacks b'-' s → starts_with (k ++ (b'-' ∷ t)) s ≡ false
unfolding starts_with
starts_with-Lacks k t [] h = grind arith
starts_with-Lacks [] t (c ∷ s) h = grind arith
starts_with-Lacks (d ∷ k) t (c ∷ s) h = grind (arith, starts_with-Lacks k t s h.1)

lower-cons : (s t : Text) → lower (s ++ (b'-' ∷ t)) ≡ lower s ++ (b'-' ∷ lower t)
unfolding to_lower
lower-cons s t = lower-append s (b'-' ∷ t)

pub literal-Lacks : (k t s : Text) → Lacks b'-' s → literal (k ++ (b'-' ∷ t)) s ≡ none
unfolding literal
literal-Lacks k t s h =
    rw (lower-cons k t, starts_with-Lacks (lower k) (lower t) (lower s) (lower-Lacks s h)) refl

pub search-Lacks {ℓ} :
    {A : Type ℓ} (f : Text → Option A) (s : Text)
    → ((t : Text) → Lacks b'-' t → f t ≡ none)
    → Lacks b'-' s
    → search f s ≡ none
unfolding search
search-Lacks f [] g h = g [] tt
search-Lacks f (c ∷ s) g h = rw (g (c ∷ s) h) (search-Lacks f s g h.1)

-- Nor does it start in such a text in front of a ';'.
lower-behind : (s t : Text) → lower (s ++ (b';' ∷ t)) ≡ lower s ++ (b';' ∷ lower t)
unfolding to_lower
lower-behind [] t = refl
lower-behind (c ∷ s) t = ap (◌∷◌ (to_lower c)) (lower-behind s t)

starts_with-behind :
    (k t s rest : Text)
    → Lacks b';' k
    → Lacks b'-' s
    → starts_with (k ++ (b'-' ∷ t)) (s ++ (b';' ∷ rest)) ≡ false
unfolding starts_with
starts_with-behind [] t [] rest g h = refl
starts_with-behind [] t (c ∷ s) rest g h = grind arith
starts_with-behind (d ∷ k) t [] rest g h = grind arith
starts_with-behind (d ∷ k) t (c ∷ s) rest g h = grind (arith, starts_with-behind k t s rest g.1 h.1)

pub literal-behind :
    (k t s rest : Text)
    → Lacks b';' (lower k)
    → Lacks b'-' s
    → literal (k ++ (b'-' ∷ t)) (s ++ (b';' ∷ rest)) ≡ none
unfolding literal
literal-behind k t s rest g h =
    rw
      (
        lower-cons k t,
        lower-behind s rest,
        starts_with-behind (lower k) (lower t) (lower s) (lower rest) g (lower-Lacks s h),
      )
      refl

-- A search goes over it.
pub search-behind {ℓ} :
    {A : Type ℓ} (f : Text → Option A) (s rest : Text)
    → ((t : Text) → Lacks b'-' t → f (t ++ (b';' ∷ rest)) ≡ none)
    → Lacks b'-' s
    → search f (s ++ (b';' ∷ rest)) ≡ search f rest
unfolding search
search-behind f [] rest g h = rw (g [] tt) refl
search-behind f (c ∷ s) rest g h = rw (g (c ∷ s) h) (search-behind f s rest g h.1)

-- The codes of Base64, and the padding.
abbrev pub IsCode : ℕ → Type 0
IsCode c = (is_item_char c ≡ true) × (c ≢ b'-')

at-All : (P : ℕ → Type 0) (xs : List ℕ) (i : ℕ) → All P xs → P 0 → P (at xs i)
at-All P [] i h z = z
at-All P (x ∷ xs) zero h z = h.0
at-All P (x ∷ xs) (suc i) h z = at-All P xs i h.1 z

zero-IsCode : IsCode 0
unfolding is_item_char is_space
zero-IsCode = (refl, omega arith)

padding-IsCode : IsCode 61
unfolding is_item_char is_space
padding-IsCode = (refl, omega arith)

base64_chars-IsCode : All IsCode base64_chars
unfolding base64_chars is_item_char is_space
base64_chars-IsCode = ground arith

char_at-IsCode : (t k : ℕ) → IsCode (char_at t k)
unfolding char_at
char_at-IsCode t k = at-All IsCode base64_chars _ base64_chars-IsCode zero-IsCode

pub base64_encode-IsCode : (xs : List ℕ) → All IsCode (base64_encode xs)
unfolding base64_encode
base64_encode-IsCode [] = tt
base64_encode-IsCode (a ∷ []) =
    (char_at-IsCode _ 18, (char_at-IsCode _ 12, (padding-IsCode, (padding-IsCode, tt))))
base64_encode-IsCode (a ∷ (b ∷ [])) =
    (char_at-IsCode _ 18, (char_at-IsCode _ 12, (char_at-IsCode _ 6, (padding-IsCode, tt))))
base64_encode-IsCode (a ∷ (b ∷ (c ∷ rest))) = (
  char_at-IsCode _ 18,
  (char_at-IsCode _ 12, (char_at-IsCode _ 6, (char_at-IsCode _ 0, base64_encode-IsCode rest))),
)

pub base64_encode-some : (xs : List ℕ) → xs ≢ [] → base64_encode xs ≢ []
unfolding base64_encode
base64_encode-some [] h = absurd (h refl)
base64_encode-some (a ∷ []) h = λ e. cc
base64_encode-some (a ∷ (b ∷ [])) h = λ e. cc
base64_encode-some (a ∷ (b ∷ (c ∷ rest))) h = λ e. cc
