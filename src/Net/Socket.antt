-- ===== src/Net/Socket.antt =====
-- `Socket::sendAll` of src/rtsp-common/socket.cpp over a kernel that is a schedule of outcomes.
use rtsp_sdk.Common.{
  ℕ, ◌+◌, ◌≤◌, ◌≡◌, refl, sym, ap, ◌∙◌, subst, Bool, true, false, Option, none, some, List, [], ◌∷◌,
  ◌++◌, map, length, take, drop, min, take-add, append_assoc, append-nil, arith, ltb, ◌==◌,
  if◌then◌else◌, Bool-cases, inl, inr, ◌⊎◌, length-drop, take_all,
}
use native.Mathlib.Nat.{add_assoc}
use rtsp_sdk.Net.Link.{Link}

-- What one round of the loop meets: the deadline has passed, `poll` times out, fails, or reports
-- an error in place of POLLOUT, and otherwise what `send` answers. `wrote n` is an answer n > 0,
-- `wrote_none` is 0, `again` is EAGAIN, EWOULDBLOCK or EINTR, `broken` any other errno.
pub data Turn : Type 0 where
  late poll_timeout poll_failed hung_up wrote_none again broken : Turn
  wrote : ℕ → Turn

pub record Socket : Type 0 where
  -- `fd_ >= 0`.
  pub is_open : Bool
  -- What the kernel will answer, round by round; a schedule that is used up means the deadline.
  pub schedule : List Turn
  -- The bytes that `send` has taken.
  pub sent : List ℕ

-- An open socket.
abbrev still : List Turn → List ℕ → Socket
still turns sent = record { is_open = true; schedule = turns; sent = sent }

-- `off > 0 ? off : -1`; `none` is -1.
abbrev partial_count : ℕ → Option ℕ
partial_count off = if ltb 0 off then some off else none

-- The loop, with `rest` the bytes from `off` on. `send` takes at most what it is offered.
unfoldable pub send_loop : List Turn → List ℕ → ℕ → List ℕ → Socket × Option ℕ
send_loop turns [] off sent = (still turns sent, some off)
send_loop [] (b ∷ rest) off sent = (still [] sent, partial_count off)
send_loop (late ∷ turns) (b ∷ rest) off sent = (still turns sent, partial_count off)
send_loop (poll_timeout ∷ turns) (b ∷ rest) off sent = (still turns sent, partial_count off)
send_loop (poll_failed ∷ turns) (b ∷ rest) off sent = (still turns sent, none)
send_loop (hung_up ∷ turns) (b ∷ rest) off sent = (still turns sent, none)
send_loop (wrote_none ∷ turns) (b ∷ rest) off sent = (still turns sent, partial_count off)
send_loop (again ∷ turns) (b ∷ rest) off sent = send_loop turns (b ∷ rest) off sent
send_loop (broken ∷ turns) (b ∷ rest) off sent = (still turns sent, none)
send_loop (wrote n ∷ turns) (b ∷ rest) off sent =
    let r = min n (length (b ∷ rest)) in
    send_loop turns (drop r (b ∷ rest)) (off + r) (sent ++ take r (b ∷ rest))

-- `sendAll`, with the socket after the call.
unfoldable pub send_all : Socket → List ℕ → Socket × Option ℕ
unfolding send_loop
send_all s bytes =
    if s.is_open
    then (if length bytes == 0 then (s, some 0) else send_loop s.schedule bytes 0 s.sent)
    else (s, none)

-- A front part of `rest` has been sent, and nothing else; the socket stays as open as it was; and
-- the answer is an error or counts that part.
abbrev pub Sends : Bool → List ℕ → ℕ → List ℕ → (Socket × Option ℕ) → Type 0
Sends was_open rest off sent (s, r) =
    (n : ℕ) × (n ≤ length rest)
    × (s.sent ≡ sent ++ take n rest)
    × (s.is_open ≡ was_open)
    × ((r ≡ none) ⊎ (r ≡ some (off + n)))

-- The loop stops with nothing more sent.
stop :
    (s : Socket) (rest : List ℕ) (off : ℕ) (r : Option ℕ)
    → (r ≡ none) ⊎ (r ≡ some off)
    → Sends s.is_open rest off s.sent (s, r)
stop s rest off r answer = (0, omega arith, sym (append-nil s.sent), refl, ground arith)

partial_count-cases : (off : ℕ) → (partial_count off ≡ none) ⊎ (partial_count off ≡ some off)
partial_count-cases off = ground arith

-- One `send` of `r` bytes, then the rest of the loop.
resume :
    (r : ℕ) (rest : List ℕ) (off : ℕ) (sent : List ℕ) (out : Socket × Option ℕ)
    → r ≤ length rest
    → Sends true (drop r rest) (off + r) (sent ++ take r rest) out
    → Sends true rest off sent out
resume r rest off sent out h (n, le, es, eo, er) = (
  r + n,
  omega (arith, length-drop r rest),
  es ∙ append_assoc sent (take r rest) (take n (drop r rest)) ∙ ap (◌++◌ sent) (take-add r n rest),
  eo,
  ground (arith, er, add_assoc off r n),
)

send_loop-Sends :
    (turns : List Turn) (rest : List ℕ) (off : ℕ) (sent : List ℕ)
    → Sends true rest off sent (send_loop turns rest off sent)
unfolding send_loop
send_loop-Sends turns [] off sent = stop (still turns sent) [] off _ (inr refl)
send_loop-Sends [] (b ∷ rest) off sent =
    stop (still [] sent) (b ∷ rest) off _ (partial_count-cases off)
send_loop-Sends (late ∷ turns) (b ∷ rest) off sent =
    stop (still turns sent) (b ∷ rest) off _ (partial_count-cases off)
send_loop-Sends (poll_timeout ∷ turns) (b ∷ rest) off sent =
    stop (still turns sent) (b ∷ rest) off _ (partial_count-cases off)
send_loop-Sends (poll_failed ∷ turns) (b ∷ rest) off sent =
    stop (still turns sent) (b ∷ rest) off none (inl refl)
send_loop-Sends (hung_up ∷ turns) (b ∷ rest) off sent =
    stop (still turns sent) (b ∷ rest) off none (inl refl)
send_loop-Sends (wrote_none ∷ turns) (b ∷ rest) off sent =
    stop (still turns sent) (b ∷ rest) off _ (partial_count-cases off)
send_loop-Sends (again ∷ turns) (b ∷ rest) off sent = send_loop-Sends turns (b ∷ rest) off sent
send_loop-Sends (broken ∷ turns) (b ∷ rest) off sent =
    stop (still turns sent) (b ∷ rest) off none (inl refl)
send_loop-Sends (wrote n ∷ turns) (b ∷ rest) off sent =
    let r = min n (length (b ∷ rest)) in
    resume r (b ∷ rest) off sent
      (send_loop turns (drop r (b ∷ rest)) (off + r) (sent ++ take r (b ∷ rest))) (omega arith)
      (send_loop-Sends turns (drop r (b ∷ rest)) (off + r) (sent ++ take r (b ∷ rest)))

-- Whatever the kernel answers, `send_all` sends a front part of the bytes and no others, leaves
-- the socket as open as it was, and reports either an error or the length of that part.
pub send_all-Sends :
    (s : Socket) (bytes : List ℕ) → Sends s.is_open bytes 0 s.sent (send_all s bytes)
unfolding send_all
send_all-Sends s bytes = by_state s.is_open refl
  where
    by_state :
        (o : Bool)
        → s.is_open ≡ o
        → Sends s.is_open bytes 0 s.sent (
            if o
            then (if length bytes == 0 then (s, some 0) else send_loop s.schedule bytes 0 s.sent)
            else (s, none))
    by_state false e = stop s bytes 0 none (inl refl)
    by_state true e = elim (Bool-cases (length bytes == 0)) [
      | inl none_left ↦ rw none_left (stop s bytes 0 (some 0) (inr refl))
      | inr left ↦ rw left (
          subst (λ o. Sends o bytes 0 s.sent (send_loop s.schedule bytes 0 s.sent)) (sym e)
            (send_loop-Sends s.schedule bytes 0 s.sent))
    ]

-- `shutdownReadWrite`: each later `send` is answered by EPIPE.
unfoldable pub shutdown_read_write : Socket → Socket
shutdown_read_write s =
    if s.is_open then record s { schedule = map (λ turn. broken) s.schedule } else s

-- The comparison that callers make with the size of the buffer.
unfoldable pub sent_whole : Option ℕ → ℕ → Bool
sent_whole none n = false
sent_whole (some k) n = k == n

unfoldable pub link_send : Socket → List ℕ → ℕ → Socket × Bool
link_send s bytes timeout = let (s', r) = send_all s bytes in (s', sent_whole r (length bytes))

pub link_all_sent :
    (s : Socket) (bytes : List ℕ) (timeout : ℕ)
    → (link_send s bytes timeout).1 ≡ true
    → (link_send s bytes timeout).0.sent ≡ s.sent ++ bytes
unfolding link_send sent_whole
link_all_sent s bytes timeout whole =
    let (n, le, es, eo, er) = send_all-Sends s bytes in
    let all : n ≡ length bytes = ground (arith, er, whole) in
    es ∙ ap (◌++◌ s.sent) (take_all bytes n (omega (arith, all)))

pub link_stays_valid :
    (s : Socket) (bytes : List ℕ) (timeout : ℕ) → (link_send s bytes timeout).0.is_open ≡ s.is_open
unfolding link_send
link_stays_valid s bytes timeout = (send_all-Sends s bytes).3

-- The socket of the program is a link.
abbrev pub socket_link : Link
socket_link = record {
  Conn = Socket;
  is_valid = λ s. s.is_open;
  send_all = link_send;
  wire = λ s. s.sent;
  all_sent = link_all_sent;
  stays_valid = link_stays_valid;
}
