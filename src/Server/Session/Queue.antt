-- ===== src/Server/Session/Queue.antt =====
-- The frame queue of `ClientSession` in src/server/rtsp_server.cpp.
use rtsp_sdk.Common.{
  ℕ, zero, suc, ◌+◌, ◌-◌, ◌≤◌, ◌<◌, ◌≡◌, refl, sym, ap, ◌∙◌, true, false, List, [], ◌∷◌, ◌++◌,
  append_assoc, append-nil, length, length-append, drop, drop-drop, leb, arith, ◌⊎◌, inl, inr,
  length-drop,
}
use rtsp_sdk.Rtp.Frame.{VideoFrame}
use rtsp_sdk.Server.Session.{
  ClientSession, player, push_frame, push_as, drop_oldest, max_queue_size,
}

unfoldable pub push_frames : ClientSession → List VideoFrame → ClientSession
push_frames s [] = s
push_frames s (frame ∷ frames) = push_frames (push_frame s frame) frames

-- The last `n` entries of a list.
unfoldable pub last_of {ℓ} : {A : Type ℓ} → ℕ → List A → List A
last_of n xs = drop (length xs - n) xs

queue_of : List VideoFrame → List VideoFrame → List VideoFrame
queue_of queue [] = queue
queue_of queue (f ∷ frames) = queue_of (drop_oldest queue ++ (f ∷ [])) frames

push_frames-queue :
    (s : ClientSession) (frames : List VideoFrame)
    → s.role ≡ player
    → (push_frames s frames).frame_queue ≡ queue_of s.frame_queue frames
unfolding push_frames queue_of push_frame
push_frames-queue s [] h = refl
push_frames-queue s (f ∷ frames) h =
    let e : push_frame s f ≡ push_as player s f = ap (λ r. push_as r s f) h in
    ap (λ t. (push_frames t frames).frame_queue) e ∙ push_frames-queue (push_as player s f) frames h

drop-append_short :
    (n : ℕ) (xs ys : List VideoFrame) → n ≤ length xs → drop n (xs ++ ys) ≡ drop n xs ++ ys
drop-append_short zero xs ys h = refl
drop-append_short (suc n) [] ys h = absurd (omega arith)
drop-append_short (suc n) (x ∷ xs) ys h = drop-append_short n xs ys (omega arith)

full_or_not : (n : ℕ) → (30 ≤ n) ⊎ (n < 30)
full_or_not n = ground arith

-- One push on a queue that is the last 30 of a list keeps it so.
drop_oldest-last :
    (xs : List VideoFrame) (f : VideoFrame)
    → drop_oldest (last_of max_queue_size xs) ++ (f ∷ []) ≡ last_of max_queue_size (xs ++ (f ∷ []))
unfolding drop_oldest last_of
drop_oldest-last xs f =
    let n = length xs - 30 in
    let size = length-append xs (f ∷ []) in
    let kept = length-drop n xs in
    elim (full_or_not (length xs)) [
      | inl full ↦
          let at_size : leb 30 (length (drop n xs)) ≡ true = ground arith in
          let one : length (xs ++ (f ∷ [])) - 30 ≡ n + 1 = omega (arith, size) in
          rw (at_size, drop-drop n 1 xs, one)
            (sym (drop-append_short (n + 1) xs (f ∷ []) (omega arith)))
      | inr room ↦
          let below : leb 30 (length (drop n xs)) ≡ false = ground arith in
          let none_now : n ≡ 0 = omega arith in
          let none_then : length (xs ++ (f ∷ [])) - 30 ≡ 0 = omega (arith, size) in
          rw (below, none_now, none_then) refl
    ]

queue_of-last :
    (xs frames : List VideoFrame)
    → queue_of (last_of max_queue_size xs) frames ≡ last_of max_queue_size (xs ++ frames)
unfolding queue_of
queue_of-last xs [] = ap (last_of max_queue_size) (sym (append-nil xs))
queue_of-last xs (f ∷ frames) =
    ap (λ q. queue_of q frames) (drop_oldest-last xs f)
    ∙ (queue_of-last (xs ++ (f ∷ [])) frames
        ∙ ap (last_of max_queue_size) (append_assoc xs (f ∷ []) frames))

last_of-short : (xs : List VideoFrame) → length xs ≤ max_queue_size → last_of max_queue_size xs ≡ xs
unfolding last_of
last_of-short xs h = let e : length xs - 30 ≡ 0 = omega arith in rw e refl

-- A player whose queue is not over its size holds, after any frames were pushed and none was taken,
-- just the last 30 of the frames that it had and those, in order.
pub push_frames-last_of :
    (s : ClientSession) (frames : List VideoFrame)
    → s.role ≡ player
    → length s.frame_queue ≤ max_queue_size
    → (push_frames s frames).frame_queue ≡ last_of max_queue_size (s.frame_queue ++ frames)
push_frames-last_of s frames h k =
    push_frames-queue s frames h
    ∙ (ap (λ q. queue_of q frames) (sym (last_of-short s.frame_queue k))
        ∙ queue_of-last s.frame_queue frames)
