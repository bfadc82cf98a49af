-- ===== src/Server/Connection/Feed/Whole.antt =====
-- The loop of `RtspConnection::handle` in src/server/rtsp_server.cpp on whole messages, however the
-- network cuts them into pieces.
use rtsp_sdk.Common.{
  ℕ, zero, suc, ◌≤◌, ◌<◌, ◌≡◌, refl, sym, ap, ◌∙◌, subst, false, ◌⊎◌, inl, inr, Option, some, List,
  [], ◌∷◌, ◌++◌, append_assoc, append-nil, length, length-append, All, concat, cuts, ltb, arith,
  le→ltb,
}
use rtsp_sdk.Text.Chars.{Text}
use rtsp_sdk.Server.Connection.Feed.{
  wait, packet, request, look, drain, receive, receive_all, max_buffer, Served, handle,
  touch_served, process_served,
}
use rtsp_sdk.Server.Connection.{Env}
use rtsp_sdk.Server.Connection.Feed.Looks.{
  IsRequest, IsPacket, request-more, request-part, packet-more, packet-part,
}

abbrev pub IsMessage : Text → Type 0
IsMessage m = IsRequest m ⊎ IsPacket m

message-some : (m : Text) → IsMessage m → 0 < length m
message-some m (inl q) = omega (arith, q.whole)
message-some m (inr q) = omega (arith, q.field)

message-small : (m : Text) → IsMessage m → length m ≤ 98304
message-small m (inl q) = omega (arith, q.whole, q.short, q.body_short)
message-small m (inr q) = omega (arith, q.field, q.short)

message-part : (m p rest : Text) → IsMessage m → m ≡ p ++ rest → length p < length m → look p ≡ wait
message-part m p rest (inl q) e h = request-part m p rest q e h
message-part m p rest (inr q) e h = packet-part m p rest q e h

module _ {ℓ} {S : Type ℓ} (touched : S → S) (process : Text → S → S) where
  -- What a message does.
  unfoldable pub act : (m : Text) → IsMessage m → S → S
  act m (inl q) s = process m s
  act m (inr q) s = touched s

  unfoldable pub act_all : (ms : List Text) → All IsMessage ms → S → S
  act_all [] k s = s
  act_all (m ∷ ms) k s = act_all ms k.1 (act m k.0 s)

  at_request :
      (fuel : ℕ) (b m more : Text) (s : S)
      → look b ≡ request m more
      → drain touched process (suc fuel) b s ≡ drain touched process fuel more (process m s)
  unfolding drain
  at_request fuel b m more s e = rw (e, drain) refl

  at_packet :
      (fuel : ℕ) (b more : Text) (s : S)
      → look b ≡ packet more
      → drain touched process (suc fuel) b s ≡ drain touched process fuel more (touched s)
  unfolding drain
  at_packet fuel b more s e = rw (e, drain) refl

  at_wait :
      (fuel : ℕ) (b : Text) (s : S)
      → look b ≡ wait
      → drain touched process (suc fuel) b s ≡ (s, some b)
  unfolding drain
  at_wait fuel b s e = rw (e, drain) refl

  drain-message :
      (fuel : ℕ) (m more : Text) (k : IsMessage m) (s : S)
      → drain touched process (suc fuel) (m ++ more) s ≡ drain touched process fuel more (act m k s)
  unfolding act
  drain-message fuel m more (inl q) s = at_request fuel (m ++ more) m more s (request-more m more q)
  drain-message fuel m more (inr q) s = at_packet fuel (m ++ more) more s (packet-more m more q)

  -- What is left when a front of the messages was drained: the messages from one on, of which the
  -- buffer holds less than the first.
  abbrev Short : List Text → Text → Type 0
  Short [] r = Unit
  Short (m ∷ ms) r = length r < length m

  abbrev Left : (ms : List Text) → All IsMessage ms → Text → S → (S × Option Text) → Type ℓ
  Left ms k y s out =
      (ms2 : List Text) × (k2 : All IsMessage ms2) × (r : Text) × (t : S) × (out ≡ (t, some r))
      × (act_all ms k s ≡ act_all ms2 k2 t)
      × (r ++ y ≡ concat ms2)
      × Short ms2 r

  drain-Left :
      (fuel : ℕ) (ms : List Text) (k : All IsMessage ms) (x y : Text) (s : S)
      → x ++ y ≡ concat ms
      → length x < fuel
      → Left ms k y s (drain touched process fuel x s)
  unfolding look act_all
  drain-Left zero ms k x y s e h = absurd (omega arith)
  drain-Left (suc fuel) [] k [] y s e h = ([], tt, [], s, at_wait fuel [] s refl, refl, e, tt)
  drain-Left (suc fuel) [] k (c ∷ x) y s e h = absurd cc
  drain-Left (suc fuel) (m ∷ ms) k x y s e h = elim (cuts x y m (concat ms) e) [
    | inl (t, f, g) ↦
        let size = length-append m t in
        let some_byte = message-some m k.0 in
        let shorter : length t < fuel = omega (arith, ap length f, size, some_byte) in
        subst (λ z. Left (m ∷ ms) k y s (drain touched process (suc fuel) z s)) (sym f)
          (subst (Left (m ∷ ms) k y s) (sym (drain-message fuel m t k.0 s))
            (drain-Left fuel ms k.1 t y (act m k.0 s) g shorter))
    | inr (t, f, l) ↦ (m ∷ ms, k, x, s, at_wait fuel x s (message-part m x t k.0 f l), refl, e, l)
  ]

  length-Short :
      (ms : List Text)
      → All IsMessage ms
      → (b y : Text) → b ++ y ≡ concat ms
      → Short ms b
      → length b ≤ 98304
  length-Short [] k [] y e h = omega arith
  length-Short [] k (c ∷ b) y e h = absurd cc
  length-Short (m ∷ ms) k b y e h = let small = message-small m k.0 in omega (arith, small)

  receive-Left :
      (ms : List Text) (k : All IsMessage ms) (b p y : Text) (s : S)
      → b ++ (p ++ y) ≡ concat ms
      → Short ms b
      → length p ≤ 4096
      → Left ms k y s (receive touched process (s, some b) p)
  unfolding receive
  receive-Left ms k b p y s e h small =
      let size = length-append b p in
      let kept = length-Short ms k b (p ++ y) e h in
      let room : ltb max_buffer (length (b ++ p)) ≡ false =
        le→ltb max_buffer (length (b ++ p)) (omega (arith, size, kept)) in
      rw room (
        drain-Left (suc (length (b ++ p))) ms k (b ++ p) y s (append_assoc b p y ∙ e) (omega arith))

  abbrev held : S → Text → S × Option Text
  held s b = (s, some b)

  nothing_left :
      (ms : List Text) (k : All IsMessage ms) (b : Text) (s : S)
      → b ++ [] ≡ concat ms
      → Short ms b
      → held s b ≡ held (act_all ms k s) []
  unfolding act_all
  nothing_left [] k [] s e h = refl
  nothing_left [] k (c ∷ b) s e h = absurd cc
  nothing_left (m ∷ ms) k b s e h =
      let size = length-append m (concat ms) in
      let same_size : length b ≡ length (m ++ concat ms) = ap length (sym (append-nil b) ∙ e) in
      absurd (omega (arith, size, same_size))

  receive_all-act :
      (pieces ms : List Text) (k : All IsMessage ms) (b : Text) (s : S)
      → b ++ concat pieces ≡ concat ms
      → Short ms b
      → All (λ p. length p ≤ 4096) pieces
      → receive_all touched process (s, some b) pieces ≡ (act_all ms k s, some [])
  unfolding receive_all
  receive_all-act [] ms k b s e h small = nothing_left ms k b s e h
  receive_all-act (p ∷ pieces) ms k b s e h small =
      let (ms2, k2, r, t, out, acts, rest, short) =
        receive-Left ms k b p (concat pieces) s e h small.0 in
      ap (λ c. receive_all touched process c pieces) out
      ∙ (receive_all-act pieces ms2 k2 r t rest short small.1 ∙ ap (λ z. held z []) (sym acts))

  receive_all-whole :
      (pieces ms : List Text) (k : All IsMessage ms) (s : S)
      → concat pieces ≡ concat ms
      → All (λ p. length p ≤ 4096) pieces
      → receive_all touched process (s, some []) pieces ≡ (act_all ms k s, some [])
  receive_all-whole pieces ms k s e small = receive_all-act pieces ms k [] s e (none_yet ms k) small
    where
      none_yet : (ms : List Text) → All IsMessage ms → Short ms []
      none_yet [] k = tt
      none_yet (m ∷ ms) k = message-some m k.0

-- Whatever pieces of at most 4096 bytes a sequence of whole messages arrives in, the loop of the
-- connection processes each request once, as just its own bytes, and touches the session for each
-- interleaved packet, in order; nothing is left in the buffer, and the connection is kept.
pub handle-whole :
    (envs : ℕ → Env) (pieces ms : List Text) (k : All IsMessage ms) (c : Served)
    → concat pieces ≡ concat ms
    → All (λ p. length p ≤ 4096) pieces
    → handle envs (c, some []) pieces
      ≡ (act_all (touch_served envs) (process_served envs) ms k c, some [])
unfolding handle
handle-whole envs pieces ms k c e small =
    receive_all-whole (touch_served envs) (process_served envs) pieces ms k c e small
