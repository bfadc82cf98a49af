-- ===== src/Text/Lines.antt =====
-- Lines, words and header ends, as std::getline and `>>` on a std::istringstream read them.
use rtsp_sdk.Common.{
  ℕ, suc, subst, append-nil, ◌+◌, ◌≡◌, ◌≢◌, refl, ap, ◌∙◌, sym, false, not, some, List, [], ◌∷◌,
  ◌++◌, map, length, All, ◌==◌, if◌then◌else◌, arith, append_assoc, length-append,
}
use rtsp_sdk.Text.Chars.{Text, Lacks, Free, is_space, drop_while, take_while, drop_while-Free}
use rtsp_sdk.Text.Search.{starts_with, find, find_here, find_later, starts_with-append}

abbrev pub crlf : Text
crlf = 13 ∷ 10 ∷ []

abbrev pub crlf2 : Text
crlf2 = 13 ∷ 10 ∷ 13 ∷ 10 ∷ []

abbrev pub cons_first : ℕ → List Text → List Text
cons_first c [] = (c ∷ []) ∷ []
cons_first c (l ∷ ls) = (c ∷ l) ∷ ls

-- All lines that std::getline gives; behind a last '\n' there is none.
unfoldable pub lines : Text → List Text
lines [] = []
lines (c ∷ s) = if c == 10 then [] ∷ lines s else cons_first c (lines s)

-- Without a '\r' at the end.
unfoldable pub chomp : Text → Text
chomp [] = []
chomp (c ∷ []) = if c == 13 then [] else c ∷ []
chomp (c ∷ (d ∷ s)) = c ∷ chomp (d ∷ s)

-- `stream >> word`, and what is left in the stream.
unfoldable pub word : Text → Text
word s = take_while (λ c. not (is_space c)) (drop_while is_space s)

unfoldable pub after_word : Text → Text
after_word s = drop_while (λ c. not (is_space c)) (drop_while is_space s)

-- Lines as they are written, and as they stand in front of an empty line.
unfoldable pub written : List Text → Text
written [] = []
written (l ∷ ls) = l ++ (crlf ++ written ls)

unfoldable pub joined : Text → List Text → Text
joined l [] = l
joined l (m ∷ ls) = l ++ (crlf ++ joined m ls)

pub written-joined :
    (l : Text) (ls : List Text) (body : Text)
    → written (l ∷ ls) ++ (crlf ++ body) ≡ joined l ls ++ (crlf2 ++ body)
unfolding written joined
written-joined l [] body = append_assoc l crlf (crlf ++ body)
written-joined l (m ∷ ls) body =
    append_assoc l (crlf ++ written (m ∷ ls)) (crlf ++ body)
    ∙ (ap (λ x. l ++ (crlf ++ x)) (written-joined m ls body)
        ∙ sym (append_assoc l (crlf ++ joined m ls) (crlf2 ++ body)))

-- A line with a character in it, and without line ends.
abbrev pub IsLine : Text → Type 0
IsLine l = (l ≢ []) × Lacks 13 l × Lacks 10 l

-- No "\r\n\r\n" begins in a text without '\r'.
pub find-past :
    (l rest : Text) (i : ℕ)
    → Lacks 13 l
    → find crlf2 rest ≡ some i
    → find crlf2 (l ++ rest) ≡ some (length l + i)
unfolding starts_with
find-past [] rest i h e = let z : 0 + i ≡ i = omega arith in rw z e
find-past (c ∷ l) rest i h e =
    let z : suc (length l) + i ≡ suc (length l + i) = omega arith in
    let no : starts_with crlf2 (c ∷ (l ++ rest)) ≡ false = grind arith in
    rw z (find_later crlf2 c (l ++ rest) (length l + i) no (find-past l rest i h.1 e))

-- Nor at the end of a line that another one follows.
find-next :
    (c : ℕ) (s : Text) (i : ℕ)
    → c ≢ 13
    → find crlf2 (c ∷ s) ≡ some i
    → find crlf2 (crlf ++ (c ∷ s)) ≡ some (suc (suc i))
unfolding starts_with
find-next c s i h e =
    find_later crlf2 13 (10 ∷ c ∷ s) (suc i) (grind arith) (find_later crlf2 10 (c ∷ s) i refl e)

find-crlf :
    (m rest : Text) (i : ℕ)
    → IsLine m
    → find crlf2 (m ++ rest) ≡ some i
    → find crlf2 (crlf ++ (m ++ rest)) ≡ some (suc (suc i))
find-crlf [] rest i h e = absurd (h.0 refl)
find-crlf (c ∷ m) rest i h e = find-next c (m ++ rest) i h.1.0 e

-- A text that starts with a line.
joined-front : (m : Text) (ls : List Text) → (t : Text) × (joined m ls ≡ m ++ t)
unfolding joined
joined-front m [] = ([], sym (append-nil m))
joined-front m (n ∷ ls) = (crlf ++ joined n ls, refl)

-- The header ends at the first "\r\n\r\n", which is where the lines end.
pub find-joined :
    (l : Text) (ls : List Text) (body : Text)
    → IsLine l
    → All IsLine ls
    → find crlf2 (joined l ls ++ (crlf2 ++ body)) ≡ some (length (joined l ls))
unfolding joined
find-joined l [] body h hs =
    let z : length l + 0 ≡ length l = omega arith in
    subst (λ k. find crlf2 (l ++ (crlf2 ++ body)) ≡ some k) z
      (find-past l (crlf2 ++ body) 0 h.1
        (find_here crlf2 (crlf2 ++ body) (starts_with-append crlf2 body)))
find-joined l (m ∷ ls) body h hs =
    let j = joined m ls in
    let rest = j ++ (crlf2 ++ body) in
    let (t, front) = joined-front m ls in
    let shape : rest ≡ m ++ (t ++ (crlf2 ++ body)) =
      ap (◌++ (crlf2 ++ body)) front ∙ append_assoc m t (crlf2 ++ body) in
    let found : find crlf2 (crlf ++ rest) ≡ some (suc (suc (length j))) =
      subst (λ x. find crlf2 (crlf ++ x) ≡ some (suc (suc (length j)))) (sym shape)
        (find-crlf m (t ++ (crlf2 ++ body)) (length j) hs.0
          (subst (λ x. find crlf2 x ≡ some (length j)) shape (find-joined m ls body hs.0 hs.1))) in
    let size : length l + suc (suc (length j)) ≡ length (l ++ (crlf ++ j)) =
      omega (arith, length-append l (crlf ++ j)) in
    ap (find crlf2) (append_assoc l (crlf ++ j) (crlf2 ++ body))
    ∙ subst (λ k. find crlf2 (l ++ (crlf ++ rest)) ≡ some k) size
        (find-past l (crlf ++ rest) (suc (suc (length j))) h.1 found)

lines-more : (c : ℕ) (s : Text) → (c == 10) ≡ false → lines (c ∷ s) ≡ cons_first c (lines s)
unfolding lines
lines-more c s h = rw h refl

lines-crlf :
    (l rest : Text) → Lacks 10 l → lines (l ++ (crlf ++ rest)) ≡ (l ++ (13 ∷ [])) ∷ lines rest
unfolding lines
lines-crlf [] rest h = refl
lines-crlf (c ∷ l) rest h =
    let no : (c == 10) ≡ false = grind arith in
    lines-more c (l ++ (crlf ++ rest)) no ∙ ap (cons_first c) (lines-crlf l rest h.1)

lines-last : (l : Text) → l ≢ [] → Lacks 10 l → lines l ≡ l ∷ []
unfolding lines
lines-last [] h k = absurd (h refl)
lines-last (c ∷ []) h k = grind arith
lines-last (c ∷ (d ∷ l)) h k =
    let rest : lines (d ∷ l) ≡ (d ∷ l) ∷ [] = lines-last (d ∷ l) (λ e. cc) k.1 in
    let no : (c == 10) ≡ false = grind arith in lines-more c (d ∷ l) no ∙ ap (cons_first c) rest

chomp-cr : (l : Text) → chomp (l ++ (13 ∷ [])) ≡ l
unfolding chomp
chomp-cr [] = refl
chomp-cr (c ∷ []) = refl
chomp-cr (c ∷ (d ∷ l)) = ap (◌∷◌ c) (chomp-cr (d ∷ l))

chomp-Lacks : (l : Text) → Lacks 13 l → chomp l ≡ l
unfolding chomp
chomp-Lacks [] h = refl
chomp-Lacks (c ∷ []) h = grind arith
chomp-Lacks (c ∷ (d ∷ l)) h = ap (◌∷◌ c) (chomp-Lacks (d ∷ l) h.1)

-- Reading the lines gives back what was joined.
pub lines-joined :
    (l : Text) (ls : List Text)
    → IsLine l
    → All IsLine ls
    → map chomp (lines (joined l ls)) ≡ l ∷ ls
unfolding joined
lines-joined l [] h hs = rw (lines-last l h.0 h.2) (ap (◌∷ []) (chomp-Lacks l h.1))
lines-joined l (m ∷ ls) h hs =
    rw (lines-crlf l (joined m ls) h.2, chomp-cr l) (ap (◌∷◌ l) (lines-joined m ls hs.0 hs.1))

-- And what was written.
pub lines-written : (ls : List Text) → All (Lacks 10) ls → map chomp (lines (written ls)) ≡ ls
unfolding written lines
lines-written [] h = refl
lines-written (l ∷ ls) h =
    rw (lines-crlf l (written ls) h.0, chomp-cr l) (ap (◌∷◌ l) (lines-written ls h.1))

-- A word in front of a blank.
module _ (w rest : Text) (some_word : w ≢ []) (plain : Free is_space w) where
  no_front : (u t : Text) → u ≢ [] → Free is_space u → drop_while is_space (u ++ t) ≡ u ++ t
  unfolding drop_while
  no_front [] t h f = absurd (h refl)
  no_front (c ∷ u) t h f = rw f.0 refl

  taken : (u : Text) → Free is_space u → take_while (λ c. not (is_space c)) (u ++ (32 ∷ rest)) ≡ u
  unfolding take_while is_space
  taken [] f = refl
  taken (c ∷ u) f = rw f.0 (ap (◌∷◌ c) (taken u f.1))

  dropped :
      (u : Text)
      → Free is_space u
      → drop_while (λ c. not (is_space c)) (u ++ (32 ∷ rest)) ≡ 32 ∷ rest
  unfolding drop_while is_space
  dropped [] f = refl
  dropped (c ∷ u) f = rw f.0 (dropped u f.1)

  pub word-append : word (w ++ (32 ∷ rest)) ≡ w
  unfolding word
  word-append = rw (no_front w (32 ∷ rest) some_word plain) (taken w plain)

  pub after_word-append : after_word (w ++ (32 ∷ rest)) ≡ 32 ∷ rest
  unfolding after_word
  after_word-append = rw (no_front w (32 ∷ rest) some_word plain) (dropped w plain)

-- A blank in front is skipped, and a last word needs nothing behind it.
pub word_skip : (s : Text) → word (32 ∷ s) ≡ word s
unfolding word drop_while is_space
word_skip s = refl

pub after_word_skip : (s : Text) → after_word (32 ∷ s) ≡ after_word s
unfolding after_word drop_while is_space
after_word_skip s = refl

take_while-all : (u : Text) → Free is_space u → take_while (λ c. not (is_space c)) u ≡ u
unfolding take_while
take_while-all [] f = refl
take_while-all (c ∷ u) f = rw f.0 (ap (◌∷◌ c) (take_while-all u f.1))

pub word_last : (w : Text) → Free is_space w → word w ≡ w
unfolding word
word_last w plain = rw (drop_while-Free is_space w plain) (take_while-all w plain)
