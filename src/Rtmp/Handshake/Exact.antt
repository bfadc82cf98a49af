-- ===== src/Rtmp/Handshake/Exact.antt =====
-- What a handshake that succeeds has sent and read, src/rtmp/rtmp_handshake.cpp.
use rtsp_sdk.Common.{
  ℕ, suc, ◌-◌, ◌≤◌, ◌≡◌, subst, refl, sym, ap, ◌∙◌, ◌⊎◌, inl, inr, Bool, true, false, Option, none,
  some, List, [], ◌∷◌, ◌++◌, append_assoc, length, take, drop, take-append-drop, length-take, min,
  leb, ◌==◌, Bool-cases, arith,
}
use rtsp_sdk.Common.Bytes.{at, lengths}
use rtsp_sdk.Net.Link.{Link}
use rtsp_sdk.Rtmp.Handshake.{
  RecvTurn, deadline, closed, nothing, came, Inbox, Received, recv_turn, recv_again, recv_loop,
  recv_exact, c0_c1, Shaken, after_s2, after_c2, after_s1, after_s0, after_c1, handshake,
}

-- Either the read failed, or it gave the next `n` bytes.
abbrev Read : ℕ → List ℕ → Received → Type 0
Read n all (none, inbox) = Unit
Read n all (some got, inbox) = (length got ≡ n) × (got ++ inbox.incoming ≡ all)

abbrev Turned : ℕ → List ℕ → Option (List ℕ × List ℕ) → Type 0
Turned n all none = Unit
Turned n all (some (left, got)) = (length got ≤ n) × (got ++ left ≡ all)

turn-Turned :
    (t : RecvTurn) (n : ℕ) (incoming out : List ℕ)
    → length out ≤ n
    → Turned n (out ++ incoming) (recv_turn t n incoming out)
unfolding recv_turn
turn-Turned deadline n incoming out h = tt
turn-Turned closed n incoming out h = tt
turn-Turned nothing n incoming out h = (h, refl)
turn-Turned (came k) n incoming out h =
    let r = min (suc k) (min (n - length out) (length incoming)) in
    elim (Bool-cases (r == 0)) [
      | inl e ↦ rw e tt
      | inr e ↦ rw e (
        omega (lengths, length-take r incoming),
        append_assoc out (take r incoming) (drop r incoming)
            ∙ ap (λ (z : List ℕ). out ++ z) (take-append-drop r incoming),
      )
    ]

again-Read :
    (turns : List RecvTurn) (n : ℕ) (all : List ℕ) (inbox : Inbox) (o : Option (List ℕ × List ℕ))
    → Turned n all o
    → ((left got : List ℕ)
        → length got ≤ n
        → got ++ left ≡ all
        → Read n all (recv_loop turns n left got))
    → Read n all (recv_again (recv_loop turns n) inbox o)
unfolding recv_again
again-Read turns n all inbox none h next = tt
again-Read turns n all inbox (some (left, got)) h next = next left got h.0 h.1

loop-Read :
    (turns : List RecvTurn) (n : ℕ) (all incoming out : List ℕ)
    → length out ≤ n
    → out ++ incoming ≡ all
    → Read n all (recv_loop turns n incoming out)
unfolding recv_loop
loop-Read [] n all incoming out h e = elim (Bool-cases (leb n (length out))) [
  | inl full ↦ rw full (ground arith, e)
  | inr part ↦ rw part tt
]
loop-Read (t ∷ turns) n all incoming out h e = elim (Bool-cases (leb n (length out))) [
  | inl full ↦ rw full (ground arith, e)
  | inr part ↦
      let turned =
        subst (λ z. Turned n z (recv_turn t n incoming out)) e (turn-Turned t n incoming out h) in
      rw part (
        again-Read turns n all _ (recv_turn t n incoming out) turned
          (λ left got short split. loop-Read turns n all left got short split))
]

exact-Read : (inbox : Inbox) (n : ℕ) → Read n inbox.incoming (recv_exact inbox n)
unfolding recv_exact
exact-Read inbox n = loop-Read inbox.turns n inbox.incoming inbox.incoming [] (omega arith) refl

module _ (l : Link) where
  -- Either the handshake fails; or the peer has sent the version, a first and a second block of 1536
  -- bytes, of which nothing is left, and has been given the bytes that were to be sent and the first block again.
  pub record Shook (c : l.Conn) (incoming bytes : List ℕ) (r : Shaken l) : Type 0 where
    pub s1 : List ℕ
    pub s2 : List ℕ
    pub outcome :
        (r.1.1 ≡ false)
        ⊎ ((length s1 ≡ 1536)
            × ((length s2 ≡ 1536)
                × ((incoming ≡ 0x03 ∷ (s1 ++ (s2 ++ r.1.0.incoming)))
                    × (l.wire r.0 ≡ l.wire c ++ (bytes ++ s1)))))

  fails :
      (c c' : l.Conn) (incoming bytes : List ℕ) (inbox : Inbox)
      → Shook c incoming bytes (c', (inbox, false))
  fails c c' incoming bytes inbox = record { s1 = []; s2 = []; outcome = inl refl }

  s2-Shook :
      (c c' : l.Conn) (incoming bytes s1 all : List ℕ) (o : Received)
      → length s1 ≡ 1536
      → incoming ≡ 0x03 ∷ (s1 ++ all)
      → l.wire c' ≡ l.wire c ++ (bytes ++ s1)
      → Read 1536 all o
      → Shook c incoming bytes (after_s2 l c' o)
  unfolding after_s2
  s2-Shook c c' incoming bytes s1 all (none, inbox) size split sent h =
      fails c c' incoming bytes inbox
  s2-Shook c c' incoming bytes s1 all (some s2, inbox) size split sent h = record {
    s1 = s1;
    s2 = s2;
    outcome = inr (size, (h.0, (split ∙ ap (λ (z : List ℕ). 0x03 ∷ (s1 ++ z)) (sym h.1), sent)));
  }

  c2-Shook :
      (c : l.Conn) (incoming bytes s1 : List ℕ) (sending : l.Conn × Bool) (inbox : Inbox)
      → length s1 ≡ 1536
      → incoming ≡ 0x03 ∷ (s1 ++ inbox.incoming)
      → (sending.1 ≡ true → l.wire sending.0 ≡ l.wire c ++ (bytes ++ s1))
      → Shook c incoming bytes (after_c2 l sending inbox)
  unfolding after_c2
  c2-Shook c incoming bytes s1 (c', false) inbox size split sent = fails c c' incoming bytes inbox
  c2-Shook c incoming bytes s1 (c', true) inbox size split sent =
      s2-Shook c c' incoming bytes s1 inbox.incoming (recv_exact inbox 1536) size split (sent refl)
        (exact-Read inbox 1536)

  s1-Shook :
      (c c' : l.Conn) (incoming bytes all : List ℕ) (timeout : ℕ) (o : Received)
      → incoming ≡ 0x03 ∷ all
      → l.wire c' ≡ l.wire c ++ bytes
      → Read 1536 all o
      → Shook c incoming bytes (after_s1 l c' timeout o)
  unfolding after_s1
  s1-Shook c c' incoming bytes all timeout (none, inbox) split sent h =
      fails c c' incoming bytes inbox
  s1-Shook c c' incoming bytes all timeout (some s1, inbox) split sent h =
      c2-Shook c incoming bytes s1 (l.send_all c' s1 timeout) inbox h.0
        (split ∙ ap (λ (z : List ℕ). 0x03 ∷ z) (sym h.1))
        (λ ok.
          l.all_sent c' s1 timeout ok
          ∙ (ap (λ (z : List ℕ). z ++ s1) sent ∙ append_assoc (l.wire c) bytes s1))

  version : (s0 : List ℕ) → length s0 ≡ 1 → (at s0 0 == 0x03) ≡ true → s0 ≡ 0x03 ∷ []
  version [] size e = absurd (omega arith)
  version (b ∷ []) size e = let same : b ≡ 0x03 = ground arith in ap (λ (z : ℕ). z ∷ []) same
  version (b ∷ (b' ∷ s0)) size e = absurd (omega arith)

  s0-Shook :
      (c c' : l.Conn) (incoming bytes : List ℕ) (timeout : ℕ) (o : Received)
      → l.wire c' ≡ l.wire c ++ bytes
      → Read 1 incoming o
      → Shook c incoming bytes (after_s0 l c' timeout o)
  unfolding after_s0
  s0-Shook c c' incoming bytes timeout (none, inbox) sent h = fails c c' incoming bytes inbox
  s0-Shook c c' incoming bytes timeout (some s0, inbox) sent h =
      elim (Bool-cases (at s0 0 == 0x03)) [
        | inr other ↦ rw other (fails c c' incoming bytes inbox)
        | inl three ↦ rw three (
            s1-Shook c c' incoming bytes inbox.incoming timeout (recv_exact inbox 1536)
              (sym h.1 ∙ ap (λ (z : List ℕ). z ++ inbox.incoming) (version s0 h.0 three)) sent
              (exact-Read inbox 1536))
      ]

  c1-Shook :
      (c : l.Conn) (bytes : List ℕ) (timeout : ℕ) (sending : l.Conn × Bool) (inbox : Inbox)
      → (sending.1 ≡ true → l.wire sending.0 ≡ l.wire c ++ bytes)
      → Shook c inbox.incoming bytes (after_c1 l timeout sending inbox)
  unfolding after_c1
  c1-Shook c bytes timeout (c', false) inbox sent = fails c c' inbox.incoming bytes inbox
  c1-Shook c bytes timeout (c', true) inbox sent =
      s0-Shook c c' inbox.incoming bytes timeout (recv_exact inbox 1) (sent refl)
        (exact-Read inbox 1)

  -- On any link and any schedule of reads the handshake ends. If it reports success, the peer has
  -- sent version 3 and two blocks of 1536 bytes each, which have just been read; and it has been given
  -- the version byte, the client's first block and the echo of its own first block, and nothing else.
  pub handshake-Shook :
      (c : l.Conn) (inbox : Inbox) (random : List ℕ) (first_timeout second_timeout : ℕ)
      → Shook c inbox.incoming
          (c0_c1 random)
          (handshake l c inbox random first_timeout second_timeout)
  unfolding handshake
  handshake-Shook c inbox random first_timeout second_timeout = elim (Bool-cases (l.is_valid c)) [
    | inr gone ↦ rw gone (fails c c inbox.incoming (c0_c1 random) inbox)
    | inl live ↦ rw live (
        c1-Shook c (c0_c1 random) second_timeout (l.send_all c (c0_c1 random) first_timeout) inbox
          (l.all_sent c (c0_c1 random) first_timeout))
  ]
