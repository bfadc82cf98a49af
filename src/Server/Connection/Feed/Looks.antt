-- ===== src/Server/Connection/Feed/Looks.antt =====
-- A message at the front of the buffer of src/server/rtsp_server.cpp, with bytes behind it, and in
-- part.
use rtsp_sdk.Common.{
  ℕ, zero, suc, ◌+◌, ◌≤◌, ◌<◌, ◌≡◌, refl, sym, ap, ◌∙◌, false, ◌⊎◌, inl, inr, none, some, [], ◌∷◌,
  ◌++◌, length, length-append, take, drop, take-append, drop-append, ◌==◌, arith, lt→ltb, le→ltb,
}
use rtsp_sdk.Common.Bytes.{read_be16, at}
use rtsp_sdk.Text.Chars.{Text}
use rtsp_sdk.Text.Search.{find}
use rtsp_sdk.Text.Find.{find-more, find-front, find-cut}
use rtsp_sdk.Text.Lines.{crlf2}
use rtsp_sdk.Server.Session.Interleaved.{skip_packet}
use rtsp_sdk.Server.Connection.Feed.{
  wait, packet, request, look, packet_look, request_look, sized, content_length, max_header,
  max_body,
}

-- A request text: its header ends within the limit, its length is valid, and it has just that
-- length.
pub record IsRequest (m : Text) : Type 0 where
  pub first : (c : ℕ) × (s : Text) × (m ≡ c ∷ s) × ((c == b'$') ≡ false)
  pub pos : ℕ
  pub body : ℕ
  pub ends : find crlf2 m ≡ some pos
  pub short : pos + 4 ≤ max_header
  pub valid : content_length (take (pos + 4) m) ≡ some body
  pub body_short : body ≤ max_body
  pub whole : length m ≡ pos + 4 + body

-- An interleaved packet: its length field has just its length.
pub record IsPacket (m : Text) : Type 0 where
  pub first : (s : Text) × (m ≡ b'$' ∷ s)
  pub field : length m ≡ 4 + read_be16 (drop 2 m)
  pub short : read_be16 (drop 2 m) < 65536

take-more : (n : ℕ) (s t : Text) → n ≤ length s → take n (s ++ t) ≡ take n s
take-more zero s t h = refl
take-more (suc n) [] t h = absurd (omega arith)
take-more (suc n) (c ∷ s) t h = ap (◌∷◌ c) (take-more n s t (omega arith))

look-request :
    (c : ℕ) (s : Text)
    → (c == b'$') ≡ false
    → look (c ∷ s) ≡ request_look (c ∷ s) (find crlf2 (c ∷ s))
unfolding look
look-request c s h = rw h refl

sized-whole :
    (m more : Text) (e n : ℕ) → length m ≡ e + n → sized (m ++ more) e (some n) ≡ request m more
unfolding sized
sized-whole m more e n h =
    let l = length-append m more in
    rw
      (
        le→ltb (length (m ++ more)) (e + n) (omega (arith, l)),
        take-append m more (e + n) (sym h),
        drop-append m more (e + n) (sym h),
      )
      refl

-- A request in front is seen as a whole.
request_look-whole :
    (m more : Text) (q : IsRequest m) → request_look (m ++ more) (some q.pos) ≡ request m more
unfolding request_look
request_look-whole m more q =
    rw
      (
        le→ltb max_header (q.pos + 4) q.short,
        take-more (q.pos + 4) m more (omega (arith, q.whole)),
        q.valid,
      )
      (sized-whole m more (q.pos + 4) q.body q.whole)

pub request-more : (m more : Text) → IsRequest m → look (m ++ more) ≡ request m more
request-more m more q =
    let (c, s, e, other) = q.first in
    let found : find crlf2 (m ++ more) ≡ some q.pos = find-more crlf2 m more q.pos q.ends in
    ap (λ x. look (x ++ more)) e
    ∙ (look-request c (s ++ more) other
        ∙ (ap (λ x. request_look (x ++ more) (find crlf2 (x ++ more))) (sym e)
            ∙ (ap (request_look (m ++ more)) found ∙ request_look-whole m more q)))

fits : (a b : ℕ) → (a ≤ b) ⊎ (b < a)
fits a b = ground arith

sized-part : (p : Text) (e n : ℕ) → length p < e + n → sized p e (some n) ≡ wait
unfolding sized
sized-part p e n h = rw (lt→ltb (length p) (e + n) h) refl

header-part :
    (p : Text) (pos n : ℕ)
    → pos + 4 ≤ max_header
    → content_length (take (pos + 4) p) ≡ some n
    → length p < pos + 4 + n
    → request_look p (some pos) ≡ wait
unfolding request_look
header-part p pos n h v l = rw (le→ltb max_header (pos + 4) h, v) (sized-part p (pos + 4) n l)

no_header : (p : Text) → length p ≤ max_header → request_look p none ≡ wait
unfolding request_look
no_header p h = rw (le→ltb max_header (length p) h) refl

-- A part of it is waited for.
request_look-part :
    (m p rest : Text) (q : IsRequest m)
    → m ≡ p ++ rest
    → length p < length m
    → request_look p (find crlf2 p) ≡ wait
request_look-part m p rest q e h =
    let there : find crlf2 (p ++ rest) ≡ some q.pos = ap (find crlf2) (sym e) ∙ q.ends in
    elim (fits (q.pos + 4) (length p)) [
      | inl room ↦
          let header : take (q.pos + 4) p ≡ take (q.pos + 4) m =
            sym (take-more (q.pos + 4) p rest room) ∙ ap (take (q.pos + 4)) (sym e) in
          ap (request_look p) (find-front crlf2 p rest q.pos there room)
          ∙ header-part p q.pos q.body q.short (ap content_length header ∙ q.valid)
              (omega (arith, q.whole))
      | inr cut ↦
          ap (request_look p) (find-cut crlf2 p rest q.pos there cut)
          ∙ no_header p (omega (arith, q.short))
    ]

look_nil : look [] ≡ wait
unfolding look
look_nil = refl

first-front :
    (m p rest : Text) (q : IsRequest m)
    → m ≡ p ++ rest
    → (p ≡ []) ⊎ ((c : ℕ) × (s : Text) × (p ≡ c ∷ s) × ((c == b'$') ≡ false))
first-front m [] rest q e = inl refl
first-front m (c ∷ s) rest q e =
    let (d, t, f, other) = q.first in
    let same_head : c ≡ d = ap (λ x. at x 0) (sym e ∙ f) in
    inr (c, s, refl, ap (λ x. x == b'$') same_head ∙ other)

pub request-part :
    (m p rest : Text) → IsRequest m → m ≡ p ++ rest → length p < length m → look p ≡ wait
request-part m p rest q e h = elim (first-front m p rest q e) [
  | inl z ↦ ap look z ∙ look_nil
  | inr (c, s, f, other) ↦
      ap look f
      ∙ (look-request c s other
          ∙ (ap (λ x. request_look x (find crlf2 x)) (sym f) ∙ request_look-part m p rest q e h))
]

-- Packets.
look-packet : (s : Text) → look (b'$' ∷ s) ≡ packet_look (skip_packet (b'$' ∷ s))
unfolding look
look-packet s = refl

field-front : (p rest : Text) → 4 ≤ length p → read_be16 (drop 2 (p ++ rest)) ≡ read_be16 (drop 2 p)
unfolding read_be16
field-front [] rest h = absurd (omega arith)
field-front (a ∷ []) rest h = absurd (omega arith)
field-front (a ∷ (b ∷ [])) rest h = absurd (omega arith)
field-front (a ∷ (b ∷ (c ∷ []))) rest h = absurd (omega arith)
field-front (a ∷ (b ∷ (c ∷ (d ∷ p)))) rest h = refl

pub packet-more : (m more : Text) → IsPacket m → look (m ++ more) ≡ packet more
unfolding skip_packet
packet-more m more q =
    let (s, e) = q.first in
    let n = read_be16 (drop 2 m) in
    let l = length-append m more in
    let field : read_be16 (drop 2 (m ++ more)) ≡ n = field-front m more (omega (arith, q.field)) in
    let skipped : skip_packet (m ++ more) ≡ some more =
      rw
        (
          field,
          le→ltb (length (m ++ more)) 4 (omega (arith, l, q.field)),
          le→ltb (length (m ++ more)) (4 + n) (omega (arith, l, q.field)),
          drop-append m more (4 + n) (sym q.field),
        )
        refl in
    ap (λ x. look (x ++ more)) e
    ∙ (look-packet (s ++ more)
        ∙ (ap (λ x. packet_look (skip_packet (x ++ more))) (sym e) ∙ ap packet_look skipped))

skip-short : (p : Text) → length p < 4 → skip_packet p ≡ none
unfolding skip_packet
skip-short p h = rw (lt→ltb (length p) 4 h) refl

skip-part :
    (p : Text) (n : ℕ)
    → 4 ≤ length p
    → read_be16 (drop 2 p) ≡ n
    → length p < 4 + n
    → skip_packet p ≡ none
unfolding skip_packet
skip-part p n h e l = rw (le→ltb (length p) 4 h, e, lt→ltb (length p) (4 + n) l) refl

packet-front :
    (m p rest : Text) (q : IsPacket m) → m ≡ p ++ rest → (p ≡ []) ⊎ ((s : Text) × (p ≡ b'$' ∷ s))
packet-front m [] rest q e = inl refl
packet-front m (c ∷ s) rest q e =
    let (t, f) = q.first in
    let same_head : c ≡ b'$' = ap (λ x. at x 0) (sym e ∙ f) in inr (s, ap (◌∷ s) same_head)

pub packet-part :
    (m p rest : Text) → IsPacket m → m ≡ p ++ rest → length p < length m → look p ≡ wait
packet-part m p rest q e h = elim (packet-front m p rest q e) [
  | inl z ↦ ap look z ∙ look_nil
  | inr (s, f) ↦
      let skipped : skip_packet p ≡ none = (elim (fits 4 (length p)) [
        | inr cut ↦ skip-short p cut
        | inl room ↦
            let field : read_be16 (drop 2 p) ≡ read_be16 (drop 2 m) =
              sym (field-front p rest room) ∙ ap (λ x. read_be16 (drop 2 x)) (sym e) in
            skip-part p (read_be16 (drop 2 m)) room field (omega (arith, q.field))
      ]) in
      ap look f
      ∙ (look-packet s ∙ (ap (λ x. packet_look (skip_packet x)) (sym f) ∙ ap packet_look skipped))
]
