-- ===== src/Server/Url.antt =====
-- `extractPathFromUrl` of src/server/rtsp_server.cpp.
use rtsp_sdk.Common.{
  ℕ, ◌+◌, ◌≡◌, refl, ap, Bool, not, ◌&&◌, Option, none, some, [], ◌∷◌, take, drop, ◌==◌,
  if◌then◌else◌, arith, Bool-cases, inl, inr,
}
use rtsp_sdk.Text.Chars.{Text, codes, drop_end, cons_unless}
use rtsp_sdk.Text.Search.{find, find_char, contains}

abbrev pub is_slash : ℕ → Bool
is_slash c = c == b'/'

-- A slash in front, and none at the end but that one.
unfoldable pub normalize_path : Text → Text
normalize_path [] = codes "/"
normalize_path (c ∷ s) =
    if is_slash c then b'/' ∷ drop_end is_slash s else b'/' ∷ drop_end is_slash (c ∷ s)

abbrev pub behind : ℕ → Text → Option ℕ → Text
behind n s none = s
behind n s (some i) = drop (i + n) s

abbrev pub up_to : Text → Option ℕ → Text
up_to s none = s
up_to s (some i) = take i s

abbrev pub path_from : Text → Option ℕ → Text
path_from s none = codes "/"
path_from s (some i) = let p = drop i s in normalize_path (up_to p (find_char b'?' p))

unfoldable pub extract_path : Text → Text
extract_path [] = codes "/"
extract_path (c ∷ url) =
    if c == b'/' && not (contains (codes "://") (c ∷ url))
    then normalize_path (c ∷ url)
    else let rest = behind 3 (c ∷ url) (find (codes "://") (c ∷ url)) in
      path_from rest (find_char b'/' rest)

-- One slash in front, and behind it a text that ends with none.
abbrev pub IsPath : Text → Type 0
IsPath p = (t : Text) × (p ≡ b'/' ∷ t) × (drop_end is_slash t ≡ t)

kept :
    (c : ℕ) (u : Text)
    → drop_end is_slash u ≡ u
    → drop_end is_slash (cons_unless is_slash c u) ≡ cons_unless is_slash c u
unfolding drop_end cons_unless
kept c [] h = ground arith
kept c (d ∷ u) h = ap (cons_unless is_slash c) h

drop_end-twice : (s : Text) → drop_end is_slash (drop_end is_slash s) ≡ drop_end is_slash s
unfolding drop_end
drop_end-twice [] = refl
drop_end-twice (c ∷ s) = kept c (drop_end is_slash s) (drop_end-twice s)

normalize_path-IsPath : (s : Text) → IsPath (normalize_path s)
unfolding normalize_path drop_end
normalize_path-IsPath [] = ([], refl, refl)
normalize_path-IsPath (c ∷ s) = elim (Bool-cases (is_slash c)) [
  | inl y ↦ rw y (drop_end is_slash s, refl, drop_end-twice s)
  | inr n ↦ rw n (drop_end is_slash (c ∷ s), refl, drop_end-twice (c ∷ s))
]

path_from-IsPath : (s : Text) (o : Option ℕ) → IsPath (path_from s o)
unfolding drop_end
path_from-IsPath s none = ([], refl, refl)
path_from-IsPath s (some i) = normalize_path-IsPath _

-- From any URL.
pub extract_path-IsPath : (url : Text) → IsPath (extract_path url)
unfolding extract_path drop_end
extract_path-IsPath [] = ([], refl, refl)
extract_path-IsPath (c ∷ url) =
    elim (Bool-cases (c == b'/' && not (contains (codes "://") (c ∷ url)))) [
      | inl y ↦ rw y (normalize_path-IsPath (c ∷ url))
      | inr n ↦ rw n (path_from-IsPath _ _)
    ]
