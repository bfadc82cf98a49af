-- ===== src/Text/Patterns.antt =====
-- The parts of std::regex that the library's patterns use. Neighbouring classes of a pattern have no
-- character in common, so a greedy match needs no way back. The flag `icase` compares in lower case.
use rtsp_sdk.Common.{
  ℕ, Bool, not, ◌&&◌, ◌||◌, Option, none, some, [], ◌∷◌, length, drop, leb, ◌==◌, if◌then◌else◌,
}
use rtsp_sdk.Text.Chars.{Text, lower, is_digit, is_space, take_while, drop_while}
use rtsp_sdk.Text.Search.{starts_with}

infixl 5 ◌>>=◌
abbrev pub ◌>>=◌ {ℓ κ} : {A : Type ℓ} {B : Type κ} → Option A → (A → Option B) → Option B
none >>= f = none
some a >>= f = f a

-- A literal, without case; what is behind it.
unfoldable pub literal : Text → Text → Option Text
literal key s = if starts_with (lower key) (lower s) then some (drop (length key) s) else none

abbrev pub some_front : Text → Text → Option (Text × Text)
some_front [] rest = none
some_front (c ∷ s) rest = some (c ∷ s, rest)

-- One character of a class and more, and what is behind them.
unfoldable pub many : (ℕ → Bool) → Text → Option (Text × Text)
many p s = some_front (take_while p s) (drop_while p s)

-- `\s+`.
unfoldable pub blanks : Text → Option Text
blanks s = do m ← many is_space s; some (m.1)

-- `(\d+)`.
unfoldable pub number : Text → Option (Text × Text)
number s = many is_digit s

abbrev pub or_try {ℓ} : {A : Type ℓ} → Option A → Option A → Option A
or_try none o = o
or_try (some a) o = some a

-- The first place where a pattern matches.
unfoldable pub search {ℓ} : {A : Type ℓ} → (Text → Option A) → Text → Option A
search f [] = f []
search f (c ∷ s) = or_try (f (c ∷ s)) (search f s)

-- A character of `[A-Za-z0-9_-]`.
unfoldable pub is_name_char : ℕ → Bool
is_name_char c =
    leb b'A' c && leb c b'Z'
    || (leb b'a' c && leb c b'z' || (is_digit c || (c == b'_' || c == b'-')))

-- A character of `[^,;\s]`, and of `[^;\s]`.
unfoldable pub is_item_char : ℕ → Bool
is_item_char c = not (c == b',' || (c == b';' || is_space c))

unfoldable pub is_part_char : ℕ → Bool
is_part_char c = not (c == b';' || is_space c)
