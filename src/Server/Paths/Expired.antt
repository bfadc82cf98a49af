-- ===== src/Server/Paths/Expired.antt =====
-- A round of `cleanupLoop` of src/server/rtsp_server.cpp, over all paths.
pub mod Swept
use rtsp_sdk.Common.{
  ℕ, zero, suc, ◌<◌, ◌≡◌, ◌≢◌, refl, sym, ap, ◌∙◌, subst, Bool, true, false, ◌&&◌, ◌||◌, Option,
  none, some, List, [], ◌∷◌, length, get_or, ◌==◌, ==_iff, if◌then◌else◌, arith, Bool-cases, inl,
  inr,
}
use rtsp_sdk.Text.Chars.{Text}
use rtsp_sdk.Text.Dict.{Dict}
use rtsp_sdk.Server.Config.{ServerConfig}
use rtsp_sdk.Server.Session.{
  ClientSession, new_session, stop, PublishReceiver, stop_receiver, map_receiver,
}
use rtsp_sdk.Server.Paths.{
  Server, MediaPath, session_at, update, change_session, is_expired, close_expired, expire_in,
  expire_paths, cleanup,
}
use rtsp_sdk.Server.Paths.Objects.{session_at-change}

-- The sessions of a path that are not expired.
unfoldable pub fresh_of : ℕ → Server → Dict ℕ → Dict ℕ
fresh_of now w [] = []
fresh_of now w ((id, a) ∷ d) =
    if is_expired w.config now (session_at w a)
    then fresh_of now w d
    else (id, a) ∷ fresh_of now w d

unfoldable pub fresh_paths : ℕ → Server → Dict MediaPath → Dict MediaPath
fresh_paths now w [] = []
fresh_paths now w ((p, m) ∷ ms) =
    (p, record m { sessions = fresh_of now w m.sessions }) ∷ fresh_paths now w ms

-- Whether the session at `b` is one of those, and expired.
unfoldable pub closes : ℕ → Server → Dict ℕ → ℕ → Bool
closes now w [] b = false
closes now w ((id, a) ∷ d) b =
    ((a == b) && is_expired w.config now (session_at w b)) || closes now w d b

unfoldable pub closes_any : ℕ → Server → Dict MediaPath → ℕ → Bool
closes_any now w [] b = false
closes_any now w ((p, m) ∷ ms) b = closes now w m.sessions b || closes_any now w ms b

stop_receiver_idem : (v : PublishReceiver) → stop_receiver (stop_receiver v) ≡ stop_receiver v
unfolding stop_receiver
stop_receiver_idem v = elim (Bool-cases v.running) [ inl y ↦ rw y refl | inr n ↦ rw n refl ]

receiver_idem :
    (o : Option PublishReceiver)
    → map_receiver stop_receiver (map_receiver stop_receiver o) ≡ map_receiver stop_receiver o
receiver_idem none = refl
receiver_idem (some v) = ap some (stop_receiver_idem v)

stop_idem : (s : ClientSession) → stop (stop s) ≡ stop s
unfolding stop
stop_idem s =
    ap (λ o. record s { playing = false; sending = false; rtp_receiver = o; frame_queue = [] })
      (receiver_idem s.rtp_receiver)

-- A place without an object is not expired.
get_or-inside :
    (xs : List ClientSession) (a : ℕ)
    → (get_or xs a (new_session 0)).last_activity ≢ 0
    → a < length xs
unfolding new_session
get_or-inside [] a h = absurd (h refl)
get_or-inside (x ∷ xs) zero h = omega arith
get_or-inside (x ∷ xs) (suc a) h = let ih = get_or-inside xs a h in omega (arith, ih)

is_expired-inside :
    (cfg : ServerConfig) (now : ℕ) (w : Server) (a : ℕ)
    → is_expired cfg now (session_at w a) ≡ true
    → a < length w.objects
unfolding is_expired session_at
is_expired-inside cfg now w a h = get_or-inside w.objects a (λ e. ground arith)

get_or-update_other :
    (a b : ℕ) (f : ClientSession → ClientSession) (xs : List ClientSession) (d : ClientSession)
    → a ≢ b
    → get_or (update a f xs) b d ≡ get_or xs b d
unfolding update
get_or-update_other a b f [] d h = refl
get_or-update_other zero zero f (x ∷ xs) d h = absurd (h refl)
get_or-update_other zero (suc b) f (x ∷ xs) d h = refl
get_or-update_other (suc a) zero f (x ∷ xs) d h = refl
get_or-update_other (suc a) (suc b) f (x ∷ xs) d h =
    get_or-update_other a b f xs d (λ e. h (ap suc e))

-- The server `v` has the configuration of `w`, and its sessions, those of `f` stopped.
abbrev pub Stopped : Server → (ℕ → Bool) → Server → Type 0
Stopped w f v =
    (v.config ≡ w.config)
    × ((b : ℕ) → session_at v b ≡ (if f b then stop (session_at w b) else session_at w b))

module _ (now : ℕ) (w : Server) where
  expired : ℕ → Bool
  expired b = is_expired w.config now (session_at w b)

  stop-is_expired :
      (cfg : ServerConfig) (g : Bool) (s : ClientSession)
      → is_expired cfg now (if g then stop s else s) ≡ is_expired cfg now s
  unfolding is_expired stop
  stop-is_expired cfg true s = refl
  stop-is_expired cfg false s = refl

  same_expired :
      (f : ℕ → Bool) (v : Server) (b : ℕ)
      → Stopped w f v
      → is_expired v.config now (session_at v b) ≡ expired b
  unfolding expired
  same_expired f v b (c, s) =
      ap (λ x. is_expired x now (session_at v b)) c
      ∙ (ap (is_expired w.config now) (s b) ∙ stop-is_expired w.config (f b) (session_at w b))

  stop_again :
      (g : Bool) (s : ClientSession)
      → stop (if g then stop s else s) ≡ (if g || true then stop s else s)
  stop_again true s = stop_idem s
  stop_again false s = refl

  or_false :
      (g : Bool) (s : ClientSession)
      → (if g then stop s else s) ≡ (if g || false then stop s else s)
  or_false true s = refl
  or_false false s = refl

  closed_at :
      (f : ℕ → Bool) (p : Text) (a b : ℕ) (v : Server)
      → Stopped w f v
      → expired a ≡ true
      → session_at (close_expired p a v) b
        ≡ (if f b || ((a == b) && expired b) then stop (session_at w b) else session_at w b)
  unfolding close_expired session_at change_session
  closed_at f p a b v (c, s) e = elim (Bool-cases (a == b)) [
    | inl y ↦
        let same_place : a ≡ b = ground (arith, ==_iff a b) in
        let inside = is_expired-inside v.config now v a (same_expired f v a (c, s) ∙ e) in
        let at_b : expired b ≡ true = ap expired (sym same_place) ∙ e in
        rw (y, at_b)
          (subst
            (λ x.
              session_at (change_session a stop v) x
              ≡ (if f x || true then stop (session_at w x) else session_at w x))
            same_place
            (session_at-change v a stop inside
              ∙ (ap stop (s a) ∙ stop_again (f a) (session_at w a))))
    | inr n ↦
        let other : a ≢ b = λ z. ground (arith, ==_iff a b) in
        rw n (
          get_or-update_other a b stop v.objects (new_session 0) other
          ∙ (s b ∙ or_false (f b) (session_at w b)))
  ]

  close-Stopped :
      (f : ℕ → Bool) (p : Text) (a : ℕ) (v : Server)
      → Stopped w f v
      → expired a ≡ true
      → Stopped w (λ b. f b || ((a == b) && expired b)) (close_expired p a v)
  unfolding close_expired change_session
  close-Stopped f p a v h e = (h.0, λ b. closed_at f p a b v h e)

  -- The same sessions, told otherwise.
  Stopped-ext :
      (f g : ℕ → Bool) (v : Server) → ((b : ℕ) → f b ≡ g b) → Stopped w f v → Stopped w g v
  Stopped-ext f g v e (c, s) =
      (c, λ b. s b ∙ ap (λ x. if x then stop (session_at w b) else session_at w b) (e b))

  or_assoc : (x y z : Bool) → ((x || y) || z) ≡ (x || (y || z))
  or_assoc x y z = ground arith

  skip_fresh :
      (x y : Bool) (a b : ℕ) → expired a ≡ false → (x || y) ≡ (x || (((a == b) && expired b) || y))
  skip_fresh x y a b e = elim (Bool-cases (a == b)) [
    | inl m ↦
        let same_place : a ≡ b = ground (arith, ==_iff a b) in
        let at_b : expired b ≡ false = ap expired (sym same_place) ∙ e in rw (m, at_b) refl
    | inr n ↦ rw n refl
  ]

  -- A path: what stays of it, and which sessions are stopped.
  expire_in-Stopped :
      (p : Text) (d : Dict ℕ) (f : ℕ → Bool) (v : Server)
      → Stopped w f v
      → ((expire_in p now d v).0 ≡ fresh_of now w d)
        × Stopped w (λ b. f b || closes now w d b) (expire_in p now d v).1
  unfolding expire_in fresh_of closes expired
  expire_in-Stopped p [] f v h = (refl, Stopped-ext f (λ b. f b || false) v (λ b. ground arith) h)
  expire_in-Stopped p ((id, a) ∷ d) f v h =
      let same_a = same_expired f v a h in
      elim (Bool-cases (expired a)) [
        | inl y ↦
            let g : ℕ → Bool = λ b. f b || ((a == b) && expired b) in
            let (kept, after) =
              expire_in-Stopped p d g (close_expired p a v) (close-Stopped f p a v h y) in
            rw (same_a, y)
              (
                kept,
                Stopped-ext _ _ _ (λ b. or_assoc (f b) ((a == b) && expired b) (closes now w d b))
                    after,
              )
        | inr n ↦
            let (kept, after) = expire_in-Stopped p d f v h in
            rw (same_a, n)
              (
                ap (◌∷◌ (id, a)) kept,
                Stopped-ext _ _ _ (λ b. skip_fresh (f b) (closes now w d b) a b n) after,
              )
      ]

  expire_paths-Stopped :
      (ms : Dict MediaPath) (f : ℕ → Bool) (v : Server)
      → Stopped w f v
      → ((expire_paths now ms v).0 ≡ fresh_paths now w ms)
        × Stopped w (λ b. f b || closes_any now w ms b) (expire_paths now ms v).1
  unfolding expire_paths fresh_paths closes_any
  expire_paths-Stopped [] f v h = (refl, Stopped-ext f (λ b. f b || false) v (λ b. ground arith) h)
  expire_paths-Stopped ((p, m) ∷ ms) f v h =
      let (kept, after) = expire_in-Stopped p m.sessions f v h in
      let (rest, last) =
        expire_paths-Stopped ms (λ b. f b || closes now w m.sessions b)
          (expire_in p now m.sessions v).1 after in
      (
        ap
              (λ x.
                (p, record m { sessions = x })
                ∷ (expire_paths now ms (expire_in p now m.sessions v).1).0)
              kept
            ∙ ap (◌∷◌ (p, record m { sessions = fresh_of now w m.sessions })) rest,
        Stopped-ext _ _ _ (λ b. or_assoc (f b) (closes now w m.sessions b) (closes_any now w ms b))
            last,
      )

-- A round leaves in each path just the sessions that are not expired, in their order, and changes
-- nothing else of the paths; the sessions that some path has and that are expired are stopped, and
-- all others are as they were.
pub cleanup-closes :
    (now : ℕ) (w : Server)
    → ((cleanup now w).paths ≡ fresh_paths now w w.paths)
      × ((cleanup now w).config ≡ w.config)
      × ((b : ℕ)
          → session_at (cleanup now w) b
            ≡ (if closes_any now w w.paths b then stop (session_at w b) else session_at w b))
unfolding cleanup session_at
cleanup-closes now w =
    let (paths, (config, sessions)) =
      expire_paths-Stopped now w w.paths (λ b. false) w (refl, λ b. refl) in
    (paths, config, sessions)
