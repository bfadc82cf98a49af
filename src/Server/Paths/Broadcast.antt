-- ===== src/Server/Paths/Broadcast.antt =====
-- `RtspServer::pushFrame` and `broadcastFrame` of src/server/rtsp_server.cpp: who gets a frame.
use rtsp_sdk.Common.{
  ◌⊎◌, ◌<◌, ◌≤◌, ◌++◌, length, drop, leb, subst, ℕ, zero, suc, ◌+◌, ◌≡◌, refl, sym, ap, ◌∙◌, Bool,
  true, false, ◌||◌, some, List, [], ◌∷◌, get_or, ◌==◌, ==_iff, if◌then◌else◌, arith, Bool-cases,
  inl, inr,
}
use rtsp_sdk.Text.Chars.{Text}
use rtsp_sdk.Text.Search.{same}
use rtsp_sdk.Text.Dict.{Dict, lookup, lookup-put}
use rtsp_sdk.Rtp.Frame.{VideoFrame}
use rtsp_sdk.Server.Session.{
  ClientSession, new_session, Role, player, publisher, push_as, push_frame, drop_oldest,
}
use rtsp_sdk.Server.Paths.{
  Server, MediaPath, session_at, update, change_session, push_if_playing, push_to_all, push_to_path,
  push_frame_at, broadcast_frame, put_path, count_frame,
}

-- Whether the session at `b` is one of those.
unfoldable pub among : Dict ℕ → ℕ → Bool
among [] b = false
among ((id, a) ∷ d) b = (a == b) || among d b

-- No session stands under two ids.
abbrev pub NoTwice : Dict ℕ → Type 0
NoTwice [] = Unit
NoTwice (e ∷ d) = (among d e.1 ≡ false) × NoTwice d

-- A change that a place without an object does not show.
get_or-update_any :
    (a b : ℕ) (f : ClientSession → ClientSession) (xs : List ClientSession) (d : ClientSession)
    → f d ≡ d
    → get_or (update a f xs) b d ≡ (if a == b then f (get_or xs b d) else get_or xs b d)
unfolding update
get_or-update_any a b f [] d h = ground arith
get_or-update_any zero zero f (x ∷ xs) d h = refl
get_or-update_any zero (suc b) f (x ∷ xs) d h = ground arith
get_or-update_any (suc a) zero f (x ∷ xs) d h = ground arith
get_or-update_any (suc a) (suc b) f (x ∷ xs) d h = get_or-update_any a b f xs d h ∙ ground arith

-- The session got the frame: as the last of its queue, which loses its first one if it has 30.
abbrev pub Gets : VideoFrame → ClientSession → ClientSession → Type 0
Gets frame s s' =
    (queue : List VideoFrame) × (s' ≡ record s { frame_queue = queue })
    × (((length s.frame_queue < 30) × (queue ≡ s.frame_queue ++ (frame ∷ [])))
        ⊎ ((30 ≤ length s.frame_queue) × (queue ≡ drop 1 s.frame_queue ++ (frame ∷ []))))

-- A player that plays gets a frame, and any other session is as it was.
abbrev pub Receives : VideoFrame → Bool → ClientSession → ClientSession → Type 0
Receives frame listed s s' =
    ((listed ≡ true) × (s.playing ≡ true) × (s.role ≡ player) × Gets frame s s')
    ⊎ (((listed ≡ false) ⊎ ((s.playing ≡ false) ⊎ (s.role ≡ publisher))) × (s' ≡ s))

role-cases : (r : Role) → (r ≡ player) ⊎ (r ≡ publisher)
role-cases player = inl refl
role-cases publisher = inr refl

push-Gets : (frame : VideoFrame) (s : ClientSession) → Gets frame s (push_as player s frame)
unfolding drop_oldest
push-Gets frame s = elim (Bool-cases (leb 30 (length s.frame_queue))) [
  | inl full ↦ (
    _,
    refl,
    inr (
      ground arith,
      ap (λ b. (if b then drop 1 s.frame_queue else s.frame_queue) ++ (frame ∷ [])) full,
    ),
  )
  | inr room ↦ (
    _,
    refl,
    inl (
      ground arith,
      ap (λ b. (if b then drop 1 s.frame_queue else s.frame_queue) ++ (frame ∷ [])) room,
    ),
  )
]

push-Receives :
    (frame : VideoFrame) (s : ClientSession) → Receives frame true s (push_if_playing frame s)
unfolding push_if_playing push_frame
push-Receives frame s =
    let at : Bool → ClientSession = λ b. if b then push_frame s frame else s in
    elim (Bool-cases s.playing) [
      | inr n ↦ inr (inr (inl n), ap at n)
      | inl y ↦ elim (role-cases s.role) [
        | inl e ↦ inl (
          refl,
          y,
          e,
          subst (Gets frame s) (sym (ap at y ∙ ap (λ r. push_as r s frame) e)) (push-Gets frame s),
        )
        | inr e ↦ inr (inr (inr e), ap at y ∙ ap (λ r. push_as r s frame) e)
      ]
    ]

module _ (frame : VideoFrame) where
  push_one :
      (a b : ℕ) (w : Server)
      → session_at (change_session a (push_if_playing frame) w) b
        ≡ (if a == b then push_if_playing frame (session_at w b) else session_at w b)
  unfolding session_at change_session push_if_playing new_session
  push_one a b w = get_or-update_any a b (push_if_playing frame) w.objects (new_session 0) refl

  push_to_all-among :
      (d : Dict ℕ) (w : Server) (b : ℕ)
      → NoTwice d
      → session_at (push_to_all frame d w) b
        ≡ (if among d b then push_if_playing frame (session_at w b) else session_at w b)
  unfolding push_to_all among
  push_to_all-among [] w b h = refl
  push_to_all-among ((id, a) ∷ d) w b h =
      let first = push_one a b w in
      let rest = push_to_all-among d (change_session a (push_if_playing frame) w) b h.1 in
      elim (Bool-cases (a == b)) [
        | inl y ↦
            let same_place : a ≡ b = ground (arith, ==_iff a b) in
            let once : among d b ≡ false = ap (among d) (sym same_place) ∙ h.0 in ground arith
        | inr n ↦ ground arith
      ]

  pub push_to_all-paths : (d : Dict ℕ) (w : Server) → (push_to_all frame d w).paths ≡ w.paths
  unfolding push_to_all change_session
  push_to_all-paths [] w = refl
  push_to_all-paths ((id, a) ∷ d) w = push_to_all-paths d _

  push_to_all-stats : (d : Dict ℕ) (w : Server) → (push_to_all frame d w).stats ≡ w.stats
  unfolding push_to_all change_session
  push_to_all-stats [] w = refl
  push_to_all-stats ((id, a) ∷ d) w = push_to_all-stats d _

  push_to_path-among :
      (p : Text) (m : MediaPath) (w : Server)
      → lookup p w.paths ≡ some m
      → NoTwice m.sessions
      → ((push_to_path p frame w).1 ≡ true)
        × ((q : Text)
            → lookup q (push_to_path p frame w).0.paths ≡ (
                if same p q
                then some (record m { latest_frame = some frame })
                else lookup q w.paths))
        × ((push_to_path p frame w).0.stats.frames_pushed ≡ w.stats.frames_pushed + 1)
        × ((b : ℕ)
            → session_at (push_to_path p frame w).0 b ≡ (
                if among m.sessions b
                then push_if_playing frame (session_at w b)
                else session_at w b))
  unfolding push_to_path push_frame_at broadcast_frame put_path count_frame session_at
  push_to_path-among p m w h k =
      let kept = put_path p (record m { latest_frame = some frame }) w in
      rw h (
        refl,
        λ q.
            ap (lookup q) (push_to_all-paths m.sessions kept)
            ∙ lookup-put p q (record m { latest_frame = some frame }) w.paths,
        ap (λ s. s.frames_pushed + 1) (push_to_all-stats m.sessions kept),
        λ b. push_to_all-among m.sessions kept b k,
      )

  at-Receives :
      (listed : Bool) (s : ClientSession)
      → Receives frame listed s (if listed then push_if_playing frame s else s)
  at-Receives true s = push-Receives frame s
  at-Receives false s = inr (inl refl, refl)

  -- A frame that is pushed to a path that is there, with no session under two ids: the path keeps it
  -- as its latest frame, the other paths are as they were, and the frame is counted. Each session of
  -- the path that plays and is a player has it as the last of its queue, and without its first frame if
  -- it had 30; the others, those of publishers also, are as they were.
  pub push_to_path-Receives :
      (p : Text) (m : MediaPath) (w : Server)
      → lookup p w.paths ≡ some m
      → NoTwice m.sessions
      → ((push_to_path p frame w).1 ≡ true)
        × ((q : Text)
            → lookup q (push_to_path p frame w).0.paths ≡ (
                if same p q
                then some (record m { latest_frame = some frame })
                else lookup q w.paths))
        × ((push_to_path p frame w).0.stats.frames_pushed ≡ w.stats.frames_pushed + 1)
        × ((b : ℕ)
            → Receives frame
                (among m.sessions b)
                (session_at w b)
                (session_at (push_to_path p frame w).0 b))
  push_to_path-Receives p m w h k =
      let (told, paths, counted, sessions) = push_to_path-among p m w h k in
      (
        told,
        paths,
        counted,
        λ b.
            subst (Receives frame (among m.sessions b) (session_at w b)) (sym (sessions b))
              (at-Receives (among m.sessions b) (session_at w b)),
      )
