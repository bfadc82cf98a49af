-- ===== src/Client/Interleaved.antt =====
-- The packets that the client of src/client/rtsp_client.cpp reads from its control connection:
-- `recvExact` and `tcpReceiveLoop`.
pub mod Stream
use rtsp_sdk.Common.{
  ℕ, zero, suc, ◌+◌, ◌-◌, ◌≡◌, refl, sym, ap, ◌∙◌, true, false, inl, inr, Option, none, some, List,
  [], ◌∷◌, ◌++◌, append_assoc, length, length-append, take, drop, take-append, drop-append, concat,
  cuts, ltb, ◌==◌, if◌then◌else◌, arith, lt→ltb, le→ltb,
}
use rtsp_sdk.Common.Bytes.{at, read_be16}

-- What `recv` will meet: the bytes that come together, of which a call takes at most as many as it
-- asks for, and an empty piece for a timeout. When no piece is left, the peer has closed the
-- connection or the loop is told to stop.
abbrev pub Pieces : Type 0
Pieces = List (List ℕ)

abbrev put_back : List ℕ → Pieces → Pieces
put_back [] pieces = pieces
put_back (b ∷ rest) pieces = (b ∷ rest) ∷ pieces

abbrev join : List ℕ → Option (List ℕ) → Option (List ℕ)
join front none = none
join front (some rest) = some (front ++ rest)

-- `recvExact` of `n` bytes, and what is still to come.
unfoldable pub recv_exact : ℕ → Pieces → Option (List ℕ) × Pieces
recv_exact n [] = (if n == 0 then some [] else none, [])
recv_exact n (piece ∷ pieces) =
    let (rest, after) = recv_exact (n - length piece) pieces in
    if n == 0
    then (some [], piece ∷ pieces)
    else if ltb (length piece) n
    then (join piece rest, after)
    else (some (take n piece), put_back (drop n piece) pieces)

module _ {ℓ} {S : Type ℓ} (channel : ℕ) (ingest : S → List ℕ → S) where
  -- A packet on the channel of RTP is handed to the receiver; another one is dropped.
  unfoldable pub hand_on : ℕ → List ℕ → S → S
  hand_on c packet s = if c == channel then ingest s packet else s

  abbrev pub packet_read : ℕ → Option (List ℕ) → S → S
  packet_read c none s = s
  packet_read c (some packet) s = hand_on c packet s

  -- The rest of a round behind the four bytes of the frame.
  unfoldable pub read_packet : Option (List ℕ) → Pieces → S → S × Pieces
  read_packet none pieces s = (s, pieces)
  read_packet (some hdr) pieces s =
      let size = read_be16 (drop 1 hdr) in
      let (packet, after) = recv_exact size pieces in
      if size == 0 then (s, pieces) else (packet_read (at hdr 0) packet s, after)

  -- A round of `tcpReceiveLoop`: a byte that is no '$' is passed over.
  unfoldable pub receive_round : ℕ → Pieces → S → S × Pieces
  receive_round b pieces s =
      let (hdr, after) = recv_exact 3 pieces in
      if b == b'$' then read_packet hdr after s else (s, pieces)

  -- The rounds of `tcpReceiveLoop`; when nothing comes any more, they do nothing until the loop is
  -- stopped.
  unfoldable pub tcp_receive_loop : ℕ → Pieces → S → S × Pieces
  tcp_receive_loop zero pieces s = (s, pieces)
  tcp_receive_loop (suc fuel) pieces s =
      let (byte, after) = recv_exact 1 pieces in
      elim byte [
        | none ↦ (s, after)
        | some bytes ↦
            let (s', rest) = receive_round (at bytes 0) after s in tcp_receive_loop fuel rest s'
      ]

  -- `tcpReceiveLoop`. Every round takes a byte, so fuel above their number is enough.
  unfoldable pub tcp_receive : Pieces → S → S × Pieces
  tcp_receive pieces s = tcp_receive_loop (suc (length (concat pieces))) pieces s

concat-put_back :
    (rest : List ℕ) (pieces : Pieces) → concat (put_back rest pieces) ≡ rest ++ concat pieces
concat-put_back [] pieces = refl
concat-put_back (b ∷ rest) pieces = refl

-- However the bytes come, `recv_exact` reads just as many as it is asked for.
pub recv_exact-front :
    (pieces : Pieces) (front rest : List ℕ)
    → concat pieces ≡ front ++ rest
    → (after : Pieces) × (recv_exact (length front) pieces ≡ (some front, after))
      × (concat after ≡ rest)
unfolding recv_exact
recv_exact-front [] [] rest e = ([], refl, e)
recv_exact-front [] (b ∷ front) rest e = absurd cc
recv_exact-front (piece ∷ pieces) [] rest e = (piece ∷ pieces, refl, e)
recv_exact-front (piece ∷ pieces) (b ∷ front) rest e =
    let n = length (b ∷ front) in
    let some_left : (n == 0) ≡ false = ground arith in
    elim (cuts piece (concat pieces) (b ∷ front) rest e) [
      | inl (t, f, g) ↦
          let long = ap length f ∙ length-append (b ∷ front) t in
          let all : ltb (length piece) n ≡ false = le→ltb (length piece) n (omega (arith, long)) in
          let taken : take n piece ≡ b ∷ front = ap (take n) f ∙ take-append (b ∷ front) t n refl in
          let left : drop n piece ≡ t = ap (drop n) f ∙ drop-append (b ∷ front) t n refl in
          rw (some_left, all)
            (
              put_back (drop n piece) pieces,
              ap (λ x. (some x, put_back (drop n piece) pieces)) taken,
              concat-put_back (drop n piece) pieces ∙ (ap (λ x. x ++ concat pieces) left ∙ g),
            )
      | inr (t, f, g) ↦
          let long = ap length f ∙ length-append piece t in
          let short : ltb (length piece) n ≡ true = lt→ltb (length piece) n g in
          let missing : n - length piece ≡ length t = omega (arith, long) in
          let (after, read, others) = recv_exact-front pieces t rest (
            sym (drop-append piece (concat pieces) (length piece) refl)
            ∙ (ap (drop (length piece)) (e ∙ (ap (λ x. x ++ rest) f ∙ append_assoc piece t rest))
                ∙ drop-append piece (t ++ rest) (length piece) refl)) in
          rw (some_left, short, missing, read) (after, ap (λ x. (some x, after)) (sym f), others)
    ]

-- No byte comes any more.
recv_exact-end : (pieces : Pieces) → concat pieces ≡ [] → recv_exact 1 pieces ≡ (none, [])
unfolding recv_exact
recv_exact-end [] e = refl
recv_exact-end ([] ∷ pieces) e = rw (recv_exact-end pieces e) refl
recv_exact-end ((b ∷ piece) ∷ pieces) e = absurd cc
