-- ===== src/Rtsp/Headers.antt =====
-- Header lines of src/rtsp-common/rtsp_request.cpp, which requests and responses write and read in
-- the same way.
pub mod Entries
use rtsp_sdk.Common.{
  ℕ, ◌+◌, ◌≡◌, ◌≢◌, refl, sym, ap, ◌∙◌, Option, none, some, List, [], ◌∷◌, ◌++◌, append_assoc,
  length, take, drop, take-append, drop-append, drop-drop, All, All-append, if◌then◌else◌, arith,
}
use rtsp_sdk.Text.Chars.{Text, codes, Lacks, Trimmed, is_blank, drop_while, trim}
use rtsp_sdk.Text.Search.{find_char, find_char-append, is_empty}
use rtsp_sdk.Text.Lines.{crlf, lines, written, IsLine}
use rtsp_sdk.Text.Numbers.{digits}
use rtsp_sdk.Text.Search.{find}
use rtsp_sdk.Text.Dict.{Dict}

-- `name: value`, and the line end behind it.
unfoldable pub header_text : Text → Text → Text
header_text name value = name ++ (codes ": " ++ value)

unfoldable pub header_line : Text → Text → Text
header_line name value = name ++ (codes ": " ++ (value ++ crlf))

unfoldable pub header_lines : Dict Text → Text
header_lines [] = []
header_lines ((name, value) ∷ h) = header_line name value ++ header_lines h

-- `Content-Length`, only in front of a body.
unfoldable pub length_entry : Text → Dict Text
length_entry [] = []
length_entry (c ∷ body) = (codes "Content-Length", digits (length (c ∷ body))) ∷ []

-- The value behind the colon, trimmed unless it is blank all through.
unfoldable pub trim_value : Text → Text
trim_value value = if is_empty (trim is_blank value) then value else trim is_blank value

-- A header line at its colon; `none` without one.
unfoldable pub split_header : Text → Option ℕ → Option (Text × Text)
split_header line none = none
split_header line (some colon) = some (take colon line, trim_value (drop (colon + 1) line))

unfoldable pub read_header : Text → Option (Text × Text)
read_header line = split_header line (find_char b':' line)

-- Names and values that come back as they were.
abbrev pub IsName : Text → Type 0
IsName s = Lacks b':' s × Lacks 13 s × Lacks 10 s

abbrev pub IsValue : Text → Type 0
IsValue s = (s ≢ []) × Trimmed is_blank s × Lacks 13 s × Lacks 10 s

abbrev pub IsEntry : Text × Text → Type 0
IsEntry e = IsName e.0 × IsValue e.1

header_line-text : (n v : Text) → header_line n v ≡ header_text n v ++ crlf
unfolding header_line header_text
header_line-text n v =
    sym
      (append_assoc n (codes ": " ++ v) crlf ∙ ap (λ x. n ++ x) (append_assoc (codes ": ") v crlf))

abbrev pub texts : Dict Text → List Text
texts [] = []
texts (e ∷ h) = header_text e.0 e.1 ∷ texts h

pub header_lines-written : (h : Dict Text) → header_lines h ≡ written (texts h)
unfolding header_lines written
header_lines-written [] = refl
header_lines-written ((n, v) ∷ h) =
    ap (◌++ header_lines h) (header_line-text n v)
    ∙ (append_assoc (header_text n v) crlf (header_lines h)
        ∙ ap (λ x. header_text n v ++ (crlf ++ x)) (header_lines-written h))

cons_not_nil : (c : ℕ) (s t : Text) → s ≡ c ∷ t → s ≢ []
cons_not_nil c s t e z = cc

header_text-cons : (n v : Text) → (c : ℕ) × (t : Text) × (header_text n v ≡ c ∷ t)
unfolding header_text
header_text-cons [] v = (b':', 32 ∷ v, refl)
header_text-cons (c ∷ n) v = (c, n ++ (codes ": " ++ v), refl)

pub header_text-IsLine : (e : Text × Text) → IsEntry e → IsLine (header_text e.0 e.1)
unfolding header_text
header_text-IsLine (n, v) ((n0, n1, n2), (v0, v1, v2, v3)) =
    let (c, t, e) = header_text-cons n v in
    (
      cons_not_nil c (header_text n v) t e,
      All-append (λ c. c ≢ 13) n (codes ": " ++ v) n1 (omega arith, (omega arith, v2)),
      All-append (λ c. c ≢ 10) n (codes ": " ++ v) n2 (omega arith, (omega arith, v3)),
    )

pub texts-IsLine : (h : Dict Text) → All IsEntry h → All IsLine (texts h)
texts-IsLine [] k = tt
texts-IsLine (e ∷ h) k = (header_text-IsLine e k.0, texts-IsLine h k.1)

trim-blank : (s : Text) → trim is_blank (32 ∷ s) ≡ trim is_blank s
unfolding trim drop_while is_blank
trim-blank s = refl

trim_value-blank : (v : Text) → v ≢ [] → Trimmed is_blank v → trim_value (32 ∷ v) ≡ v
unfolding trim_value is_empty
trim_value-blank [] h k = absurd (h refl)
trim_value-blank (c ∷ v) h k =
    let z : trim is_blank (32 ∷ (c ∷ v)) ≡ c ∷ v = trim-blank (c ∷ v) ∙ k in rw z refl

-- Reading a written header gives its name and its value.
pub read_header-text : (e : Text × Text) → IsEntry e → read_header (header_text e.0 e.1) ≡ some e
unfolding header_text read_header split_header
read_header-text (n, v) ((n0, n1, n2), (v0, v1, v2, v3)) =
    rw
      (
        find_char-append b':' n (32 ∷ v) n0,
        take-append n (b':' ∷ 32 ∷ v) (length n) refl,
        sym (drop-drop (length n) 1 (n ++ (b':' ∷ 32 ∷ v))),
        drop-append n (b':' ∷ 32 ∷ v) (length n) refl,
        trim_value-blank v v0 v1,
      )
      refl
