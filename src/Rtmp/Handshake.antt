-- ===== src/Rtmp/Handshake.antt =====
-- The simple handshake of src/rtmp/rtmp_handshake.cpp, over any link for the sends. What the kernel
-- says to `recv` and the clock to the deadline is a schedule; the random bytes are an argument.
pub mod Exact
mod Examples
use rtsp_sdk.Common.{
  ℕ, suc, ◌+◌, ◌-◌, Bool, true, false, not, Option, none, some, List, [], ◌∷◌, ◌++◌, length, take,
  drop, replicate, min, leb, ◌==◌, if◌then◌else◌,
}
use rtsp_sdk.Common.Bytes.{at}
use rtsp_sdk.Net.Link.{Link}

-- One round of `recvExact`: the deadline has passed, the peer has closed, nothing came, or at most
-- `suc k` bytes came.
pub data RecvTurn : Type 0 where
  deadline closed nothing : RecvTurn
  came : ℕ → RecvTurn

-- The bytes that the peer has sent, and the rounds to come.
pub record Inbox : Type 0 where
  pub incoming : List ℕ
  pub turns : List RecvTurn

-- What a round leaves of the incoming bytes, and the bytes that were read; `none` is `return false`.
unfoldable pub recv_turn : RecvTurn → ℕ → List ℕ → List ℕ → Option (List ℕ × List ℕ)
recv_turn deadline n incoming out = none
recv_turn closed n incoming out = none
recv_turn nothing n incoming out = some (incoming, out)
recv_turn (came k) n incoming out =
    let r = min (suc k) (min (n - length out) (length incoming)) in
    if r == 0 then none else some (drop r incoming, out ++ take r incoming)

abbrev pub Received : Type 0
Received = Option (List ℕ) × Inbox

-- What the loop does with a round; `again` is the next one.
unfoldable pub recv_again :
    (List ℕ → List ℕ → Received) → Inbox → Option (List ℕ × List ℕ) → Received
recv_again again inbox none = (none, inbox)
recv_again again inbox (some (left, got)) = again left got

-- The loop of `recvExact`, with the bytes read so far. Without further rounds the deadline passes.
unfoldable pub recv_loop : List RecvTurn → ℕ → List ℕ → List ℕ → Received
recv_loop [] n incoming out =
    let result : Option (List ℕ) = if leb n (length out) then some out else none in
    (result, record { incoming = incoming; turns = [] })
recv_loop (t ∷ turns) n incoming out =
    let more =
      recv_again (recv_loop turns n) (record { incoming = incoming; turns = turns })
        (recv_turn t n incoming out) in
    if leb n (length out)
    then (some out, record { incoming = incoming; turns = t ∷ turns })
    else more

unfoldable pub recv_exact : Inbox → ℕ → Received
recv_exact inbox n = recv_loop inbox.turns n inbox.incoming []

-- The version byte and the first block of the client.
unfoldable pub c0_c1 : List ℕ → List ℕ
c0_c1 random = 0x03 ∷ (replicate 8 0 ++ random)

module _ (l : Link) where
  abbrev pub Shaken : Type 0
  Shaken = l.Conn × (Inbox × Bool)

  -- The second block of the server has been read, or not.
  unfoldable pub after_s2 : l.Conn → Received → Shaken
  after_s2 c (none, inbox) = (c, (inbox, false))
  after_s2 c (some s2, inbox) = (c, (inbox, true))

  -- The echo has been sent, or not.
  unfoldable pub after_c2 : l.Conn × Bool → Inbox → Shaken
  after_c2 (c, false) inbox = (c, (inbox, false))
  after_c2 (c, true) inbox = after_s2 c (recv_exact inbox 1536)

  -- The first block of the server has been read: it is echoed.
  unfoldable pub after_s1 : l.Conn → ℕ → Received → Shaken
  after_s1 c timeout (none, inbox) = (c, (inbox, false))
  after_s1 c timeout (some s1, inbox) = after_c2 (l.send_all c s1 timeout) inbox

  unfoldable pub after_s0 : l.Conn → ℕ → Received → Shaken
  after_s0 c timeout (none, inbox) = (c, (inbox, false))
  after_s0 c timeout (some s0, inbox) =
      if at s0 0 == 0x03 then after_s1 c timeout (recv_exact inbox 1536) else (c, (inbox, false))

  unfoldable pub after_c1 : ℕ → l.Conn × Bool → Inbox → Shaken
  after_c1 timeout (c, false) inbox = (c, (inbox, false))
  after_c1 timeout (c, true) inbox = after_s0 c timeout (recv_exact inbox 1)

  -- `rtmpSimpleHandshakeClient`; the timeouts are what is left at either send.
  unfoldable pub handshake : l.Conn → Inbox → List ℕ → ℕ → ℕ → Shaken
  handshake c inbox random first_timeout second_timeout =
      if l.is_valid c
      then after_c1 second_timeout (l.send_all c (c0_c1 random) first_timeout) inbox
      else (c, (inbox, false))
