-- ===== src/Rtsp/Headers/Entries.antt =====
-- The headers that `build` of src/rtsp-common/rtsp_request.cpp writes, in requests and in responses:
-- `CSeq`, those of the object, and `Content-Length`.
use rtsp_sdk.Common.{
  ℕ, ◌≡◌, ◌≢◌, refl, sym, ap, ◌∙◌, true, false, List, [], ◌∷◌, ◌++◌, append_assoc, append-nil,
  length, All, All-append, arith,
}
use rtsp_sdk.Text.Chars.{Text, codes, Lacks, Free, is_space, is_blank, trim-Free}
use rtsp_sdk.Text.Lines.{crlf, written}
use rtsp_sdk.Text.Numbers.{ℤ, show_int, show_int-Free, show_int-some}
use rtsp_sdk.Text.Dict.{Dict}
use rtsp_sdk.Rtsp.Headers.{
  header_line, header_lines, header_lines-written, length_entry, texts, IsName, IsValue, IsEntry,
}

-- The headers in the order in which they are written.
unfoldable pub sent_entries : ℤ → Dict Text → Text → Dict Text
sent_entries cseq h body = (codes "CSeq", show_int cseq) ∷ (h ++ length_entry body)

header_lines-append : (g h : Dict Text) → header_lines (g ++ h) ≡ header_lines g ++ header_lines h
unfolding header_lines
header_lines-append [] h = refl
header_lines-append ((n, v) ∷ g) h =
    ap (λ x. header_line n v ++ x) (header_lines-append g h)
    ∙ sym (append_assoc (header_line n v) (header_lines g) (header_lines h))

one : (n v s : Text) → header_lines ((n, v) ∷ []) ++ s ≡ header_line n v ++ s
unfolding header_lines
one n v s = ap (◌++ s) (append-nil (header_line n v))

lead : (l : Text) (ls : List Text) (s : Text) → written ls ≡ s → written (l ∷ ls) ≡ l ++ (crlf ++ s)
unfolding written
lead l ls s e = ap (λ x. l ++ (crlf ++ x)) e

sent_entries-written :
    (cseq : ℤ) (h : Dict Text) (body : Text)
    → written (texts (sent_entries cseq h body))
      ≡ header_line (codes "CSeq") (show_int cseq)
        ++ (header_lines h ++ header_lines (length_entry body))
unfolding sent_entries
sent_entries-written cseq h body =
    let n = codes "CSeq" in
    let v = show_int cseq in
    sym (header_lines-written (sent_entries cseq h body))
    ∙ (header_lines-append ((n, v) ∷ []) (h ++ length_entry body)
        ∙ (one n v (header_lines (h ++ length_entry body))
            ∙ ap (λ x. header_line n v ++ x) (header_lines-append h (length_entry body))))

glue :
    (l c g n b : Text)
    → l ++ (crlf ++ (c ++ (g ++ (n ++ (crlf ++ b)))))
      ≡ (l ++ (crlf ++ (c ++ (g ++ n)))) ++ (crlf ++ b)
glue l c g n b = simp append_assoc

-- A first line, the headers and the body, as lines.
pub message-written :
    (line : Text) (cseq : ℤ) (h : Dict Text) (body : Text)
    → line
        ++ (crlf
            ++ (header_line (codes "CSeq") (show_int cseq)
                ++ (header_lines h ++ (header_lines (length_entry body) ++ (crlf ++ body)))))
      ≡ written (line ∷ texts (sent_entries cseq h body)) ++ (crlf ++ body)
message-written line cseq h body =
    glue line (header_line (codes "CSeq") (show_int cseq)) (header_lines h)
      (header_lines (length_entry body)) body
    ∙ ap (◌++ (crlf ++ body))
        (sym (lead line (texts (sent_entries cseq h body)) _ (sent_entries-written cseq h body)))

differ : (c d : ℕ) → is_space c ≡ false → is_space d ≡ true → c ≢ d
differ c d f h e = cc

pub no_space : (w : Text) (d : ℕ) → is_space d ≡ true → Free is_space w → Lacks d w
no_space [] d h f = tt
no_space (c ∷ w) d h f = (differ c d f.0 h, no_space w d h f.1)

space→blank : (c : ℕ) → is_space c ≡ false → is_blank c ≡ false
unfolding is_space is_blank
space→blank c h = ground arith

Free-blank : (s : Text) → Free is_space s → Free is_blank s
Free-blank [] h = tt
Free-blank (c ∷ s) h = (space→blank c h.0, Free-blank s h.1)

word-IsValue : (s : Text) → s ≢ [] → Free is_space s → IsValue s
unfolding is_space
word-IsValue s h f =
    (h, trim-Free is_blank s (Free-blank s f), no_space s 13 refl f, no_space s 10 refl f)

pub show_int-IsValue : (v : ℤ) → IsValue (show_int v)
show_int-IsValue v = word-IsValue (show_int v) (show_int-some v) (show_int-Free v)

pub length_entry-IsEntry : (body : Text) → All IsEntry (length_entry body)
unfolding length_entry show_int
length_entry-IsEntry [] = tt
length_entry-IsEntry (c ∷ body) = ((hyphenated, show_int-IsValue (ℤ.pos (length (c ∷ body)))), tt)
  where
    hyphenated : IsName (codes "Content-Length")
    hyphenated = ground arith

pub sent_entries-IsEntry :
    (cseq : ℤ) (h : Dict Text) (body : Text)
    → All IsEntry h
    → All IsEntry (sent_entries cseq h body)
unfolding sent_entries
sent_entries-IsEntry cseq h body k = (
  (name, show_int-IsValue cseq),
  All-append IsEntry h (length_entry body) k (length_entry-IsEntry body),
)
  where
    name : IsName (codes "CSeq")
    name = ground arith
