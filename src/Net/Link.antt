-- ===== src/Net/Link.antt =====
-- What the protocol code needs of a connected socket: it can be asked whether it is open, and
-- `sendAll` either reports the whole buffer sent, and then all of it is on the wire in order, or
-- does not. `Conn` is the socket with everything behind it; the timeout is the caller's.
use rtsp_sdk.Common.{ℕ, ◌≡◌, Bool, true, List, ◌++◌}

pub record Link : Type 1 where
  pub Conn : Type 0
  pub is_valid : Conn → Bool
  -- `sendAll(buf.data(), buf.size(), timeout) == buf.size()`, with the socket after the call.
  pub send_all : Conn → List ℕ → ℕ → Conn × Bool
  -- Every byte that the peer is given, in order.
  pub wire : Conn → List ℕ
  pub all_sent :
      (c : Conn) (bytes : List ℕ) (timeout : ℕ)
      → (send_all c bytes timeout).1 ≡ true
      → wire (send_all c bytes timeout).0 ≡ wire c ++ bytes
  pub stays_valid :
      (c : Conn) (bytes : List ℕ) (timeout : ℕ) → is_valid (send_all c bytes timeout).0 ≡ is_valid c
