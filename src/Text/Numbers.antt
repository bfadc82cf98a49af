-- ===== src/Text/Numbers.antt =====
-- `parseInt32Safe`, `parseUint32Safe`, `parseUint64Safe` and `trimCopy` of
-- src/rtsp-common/common.cpp, and the decimal numbers that the streams write.
use rtsp_sdk.Common.{
  ℕ, zero, suc, ◌+◌, ◌*◌, ◌-◌, ◌/◌, ◌%◌, ◌^◌, ◌≤◌, ◌<◌, ◌≡◌, refl, ◌∙◌, Bool, true, false, Option,
  none, some, ◌≢◌, ◌⊎◌, inl, inr, ap, lt→ltb, le→ltb, [], ◌∷◌, All, ltb, ◌==◌, if◌then◌else◌, arith,
}
use rtsp_sdk.Text.Chars.{Text, Free, is_space, is_digit, trim, trim-Free}

pub data ℤ : Type 0 where
  pos negsuc : ℕ → ℤ

unfoldable pub trim_copy : Text → Text
trim_copy s = trim is_space s

-- The digits of a number in front of others.
unfoldable pub digits_on : ℕ → ℕ → Text → Text
digits_on zero n acc = acc
digits_on (suc fuel) n acc = elim (ltb n 10) [
  | true ↦ (48 + n) ∷ acc
  | false ↦ digits_on fuel (n / 10) ((48 + n % 10) ∷ acc)
]

unfoldable pub digits : ℕ → Text
digits n = digits_on (suc n) n []

unfoldable pub show_int : ℤ → Text
show_int (pos n) = digits n
show_int (negsuc n) = b'-' ∷ digits (suc n)

-- Decimal digits to the end of the text, and at least one.
unfoldable pub value_on : ℕ → Text → Option ℕ
value_on acc [] = some acc
value_on acc (c ∷ s) = if is_digit c then value_on (acc * 10 + (c - 48)) s else none

unfoldable pub value : Text → Option ℕ
value [] = none
value (c ∷ s) = value_on 0 (c ∷ s)

-- `std::stoll` that uses up all of a text without blanks in front: a sign, and digits.
unfoldable pub negated : Option ℕ → Option ℤ
negated none = none
negated (some zero) = some (pos 0)
negated (some (suc n)) = some (negsuc n)

unfoldable pub plain : Option ℕ → Option ℤ
plain none = none
plain (some n) = some (pos n)

unfoldable pub signed_value : Text → Option ℤ
signed_value [] = none
signed_value (c ∷ s) =
    if c == b'-'
    then negated (value s)
    else if c == b'+'
    then plain (value s)
    else plain (value (c ∷ s))

-- `std::stoull` in the same way, on a text that does not start with '-'.
unfoldable pub unsigned_value : Text → Option ℕ
unsigned_value [] = none
unsigned_value (c ∷ s) = if c == b'-' then none else if c == b'+' then value s else value (c ∷ s)

-- Within the bounds of std::int32_t.
unfoldable pub in_int32 : ℤ → Bool
in_int32 (pos n) = ltb n (2 ^ 31)
in_int32 (negsuc n) = ltb n (2 ^ 31)

unfoldable pub if_int32 : Option ℤ → Option ℤ
if_int32 none = none
if_int32 (some v) = if in_int32 v then some v else none

unfoldable pub if_below : ℕ → Option ℕ → Option ℕ
if_below bound none = none
if_below bound (some v) = if ltb v bound then some v else none

-- `none` is `false`; `allow_empty` is false in every call.
unfoldable pub parse_int32_safe : Text → Option ℤ
parse_int32_safe s = if_int32 (signed_value (trim_copy s))

unfoldable pub parse_uint32_safe : Text → Option ℕ
parse_uint32_safe s = if_below (2 ^ 32) (unsigned_value (trim_copy s))

unfoldable pub parse_uint64_safe : Text → Option ℕ
parse_uint64_safe s = if_below (2 ^ 64) (unsigned_value (trim_copy s))

-- Only digits.
abbrev pub Digits : Text → Type 0
Digits = All (λ c. is_digit c ≡ true)

digit-is_digit : (d : ℕ) → d < 10 → is_digit (48 + d) ≡ true
unfolding is_digit
digit-is_digit d h = ground arith

small_or_large : (n : ℕ) → (n < 10) ⊎ (10 ≤ n)
small_or_large n = ground arith

digits_on-small : (fuel n : ℕ) (acc : Text) → n < 10 → digits_on (suc fuel) n acc ≡ (48 + n) ∷ acc
unfolding digits_on
digits_on-small fuel n acc h = rw (lt→ltb n 10 h, digits_on) refl

digits_on-large :
    (fuel n : ℕ) (acc : Text)
    → 10 ≤ n
    → digits_on (suc fuel) n acc ≡ digits_on fuel (n / 10) ((48 + n % 10) ∷ acc)
unfolding digits_on
digits_on-large fuel n acc h = rw (le→ltb n 10 h, digits_on) refl

digits_on-Digits : (fuel n : ℕ) (acc : Text) → Digits acc → Digits (digits_on fuel n acc)
unfolding digits_on
digits_on-Digits zero n acc h = h
digits_on-Digits (suc fuel) n acc h = elim (small_or_large n) [
  | inl small ↦ rw (digits_on-small fuel n acc small) (digit-is_digit n small, h)
  | inr large ↦ rw (digits_on-large fuel n acc large) (
      digits_on-Digits fuel (n / 10) ((48 + n % 10) ∷ acc)
        (digit-is_digit (n % 10) (omega arith), h))
]

pub digits-Digits : (n : ℕ) → Digits (digits n)
unfolding digits
digits-Digits n = digits_on-Digits (suc n) n [] tt

digits_on-cons :
    (fuel n c : ℕ) (acc : Text) → (d : ℕ) × (s : Text) × (digits_on fuel n (c ∷ acc) ≡ d ∷ s)
unfolding digits_on
digits_on-cons zero n c acc = (c, acc, refl)
digits_on-cons (suc fuel) n c acc = elim (small_or_large n) [
  | inl small ↦ rw (digits_on-small fuel n (c ∷ acc) small) (48 + n, c ∷ acc, refl)
  | inr large ↦
      rw (digits_on-large fuel n (c ∷ acc) large)
        (digits_on-cons fuel (n / 10) (48 + n % 10) (c ∷ acc))
]

pub digits-cons : (n : ℕ) → (d : ℕ) × (s : Text) × (digits n ≡ d ∷ s)
unfolding digits digits_on
digits-cons n = elim (small_or_large n) [
  | inl small ↦ rw (digits_on-small n n [] small) (48 + n, [], refl)
  | inr large ↦ rw (digits_on-large n n [] large) (digits_on-cons n (n / 10) (48 + n % 10) [])
]

value_on-digit :
    (acc d : ℕ) (s : Text) → d < 10 → value_on acc ((48 + d) ∷ s) ≡ value_on (acc * 10 + d) s
unfolding value_on
value_on-digit acc d s h = let z : 48 + d - 48 ≡ d = omega arith in rw (digit-is_digit d h, z) refl

value_on-digits_on :
    (fuel n : ℕ) (acc : Text) → n < fuel → value_on 0 (digits_on fuel n acc) ≡ value_on n acc
value_on-digits_on zero n acc h = absurd (omega arith)
value_on-digits_on (suc fuel) n acc h = elim (small_or_large n) [
  | inl small ↦
      let z : 0 * 10 + n ≡ n = omega arith in
      rw (digits_on-small fuel n acc small, value_on-digit 0 n acc small, z) refl
  | inr large ↦
      let z : n / 10 * 10 + n % 10 ≡ n = omega arith in
      rw
        (
          digits_on-large fuel n acc large,
          value_on-digits_on fuel (n / 10) ((48 + n % 10) ∷ acc) (omega arith),
          value_on-digit (n / 10) (n % 10) acc (omega arith),
          z,
        )
        refl
]

value-cons : (t : Text) (c : ℕ) (s : Text) → t ≡ c ∷ s → value t ≡ value_on 0 t
unfolding value
value-cons t c s e = rw e refl

pub value-digits : (n : ℕ) → value (digits n) ≡ some n
unfolding digits value_on
value-digits n =
    let (c, s, e) = digits-cons n in
    value-cons (digits n) c s e ∙ value_on-digits_on (suc n) n [] (omega arith)

-- Digits have no sign.
signed_value-Digits :
    (t : Text) (c : ℕ) (s : Text) → t ≡ c ∷ s → Digits t → signed_value t ≡ plain (value t)
unfolding signed_value is_digit
signed_value-Digits [] c s e h = cc
signed_value-Digits (d ∷ t) c s e h = ground arith

pub signed_value-show_int : (v : ℤ) → signed_value (show_int v) ≡ some v
unfolding show_int signed_value plain negated
signed_value-show_int (pos n) =
    let (c, s, e) = digits-cons n in
    signed_value-Digits (digits n) c s e (digits-Digits n) ∙ ap plain (value-digits n)
signed_value-show_int (negsuc n) = ap negated (value-digits (suc n))

digit_not_space : (c : ℕ) → is_digit c ≡ true → is_space c ≡ false
unfolding is_digit is_space
digit_not_space c h = ground arith

pub Digits-Free : (s : Text) → Digits s → Free is_space s
Digits-Free [] h = tt
Digits-Free (c ∷ s) h = (digit_not_space c h.0, Digits-Free s h.1)

pub show_int-Free : (v : ℤ) → Free is_space (show_int v)
unfolding show_int is_space
show_int-Free (pos n) = Digits-Free (digits n) (digits-Digits n)
show_int-Free (negsuc n) = (refl, Digits-Free (digits (suc n)) (digits-Digits (suc n)))

-- A number of 32 bits that was written is read back.
pub parse_int32_safe-show_int : (v : ℤ) → in_int32 v ≡ true → parse_int32_safe (show_int v) ≡ some v
unfolding parse_int32_safe trim_copy if_int32
parse_int32_safe-show_int v h =
    rw (trim-Free is_space (show_int v) (show_int-Free v), signed_value-show_int v, h) refl

pub show_int-some : (v : ℤ) → show_int v ≢ []
unfolding show_int
show_int-some (pos n) = let (c, s, e) = digits-cons n in λ z. cc
show_int-some (negsuc n) = λ z. cc
