-- ===== src/Server/Paths/Expired/Swept.antt =====
-- A round of `cleanupLoop` of src/server/rtsp_server.cpp, in terms of times and of what a session is
-- left with.
use rtsp_sdk.Common.{
  ℕ, ◌+◌, ◌*◌, ◌<◌, ◌≤◌, ◌≡◌, refl, sym, ap, ◌∙◌, subst, ◌⊎◌, inl, inr, Bool, true, false, ◌&&◌,
  ◌||◌, Bool-cases, Option, none, some, [], ◌∷◌, ◌==◌, if◌then◌else◌, arith,
}
use rtsp_sdk.Text.Chars.{Text}
use rtsp_sdk.Text.Dict.{Dict}
use rtsp_sdk.Server.Config.{ServerConfig}
use rtsp_sdk.Server.Session.{ClientSession, PublishReceiver, stop, stop_receiver, map_receiver}
use rtsp_sdk.Server.Paths.{Server, MediaPath, session_at, is_expired, cleanup}
use rtsp_sdk.Server.Paths.Broadcast.{among}
use rtsp_sdk.Server.Paths.Expired.{fresh_of, fresh_paths, closes, closes_any, cleanup-closes}

-- The last sign of life, in nanoseconds, is longer ago than the timeout, in milliseconds; a session
-- that is at 0 has had none.
abbrev pub IsOverdue : ServerConfig → ℕ → ClientSession → Type 0
IsOverdue cfg now s =
    (0 < s.last_activity) × (s.last_activity + cfg.session_timeout_ms * 1_000_000 < now)

abbrev pub IsFresh : ServerConfig → ℕ → ClientSession → Type 0
IsFresh cfg now s =
    (s.last_activity ≡ 0) ⊎ (now ≤ s.last_activity + cfg.session_timeout_ms * 1_000_000)

-- Of the sessions of a path just the fresh ones are kept, in their order.
pub data Kept (now : ℕ) (w : Server) : Dict ℕ → Dict ℕ → Type 0 where
  nothing : Kept now w [] []
  stays :
      (id : Text) (a : ℕ) {d d' : Dict ℕ}
      → IsFresh w.config now (session_at w a)
      → Kept now w d d'
      → Kept now w ((id, a) ∷ d) ((id, a) ∷ d')
  goes :
      (id : Text) (a : ℕ) {d d' : Dict ℕ}
      → IsOverdue w.config now (session_at w a)
      → Kept now w d d'
      → Kept now w ((id, a) ∷ d) d'

-- The same paths, with these sessions.
pub data Swept (now : ℕ) (w : Server) : Dict MediaPath → Dict MediaPath → Type 0 where
  no_path : Swept now w [] []
  path :
      (p : Text) (m : MediaPath) {d : Dict ℕ} {ms ms' : Dict MediaPath}
      → Kept now w m.sessions d
      → Swept now w ms ms'
      → Swept now w ((p, m) ∷ ms) ((p, record m { sessions = d }) ∷ ms')

-- A receiver that ran runs no more, and its sockets are closed.
abbrev pub ReceiverEnded : Option PublishReceiver → Option PublishReceiver → Type 0
ReceiverEnded none o = o ≡ none
ReceiverEnded (some v) o =
    ((v.running ≡ true) × (o ≡ some (record v { running = false; is_open = false })))
    ⊎ ((v.running ≡ false) × (o ≡ some v))

-- The session neither plays nor sends, has no frames and no receiver that runs; the rest is as it was.
abbrev pub Ended : ClientSession → ClientSession → Type 0
Ended s s' =
    (receiver : Option PublishReceiver) × ReceiverEnded s.rtp_receiver receiver
    × (s'
        ≡ record s { playing = false; sending = false; rtp_receiver = receiver; frame_queue = [] })

-- Whether some path has the session at `b`.
unfoldable pub among_any : Dict MediaPath → ℕ → Bool
among_any [] b = false
among_any ((p, m) ∷ ms) b = among m.sessions b || among_any ms b

is_expired-IsOverdue :
    (cfg : ServerConfig) (now : ℕ) (s : ClientSession)
    → is_expired cfg now s ≡ true
    → IsOverdue cfg now s
unfolding is_expired
is_expired-IsOverdue cfg now s h = ground arith

is_expired-IsFresh :
    (cfg : ServerConfig) (now : ℕ) (s : ClientSession)
    → is_expired cfg now s ≡ false
    → IsFresh cfg now s
unfolding is_expired
is_expired-IsFresh cfg now s h = ground arith

stop_receiver-Ended : (o : Option PublishReceiver) → ReceiverEnded o (map_receiver stop_receiver o)
unfolding stop_receiver
stop_receiver-Ended none = refl
stop_receiver-Ended (some v) = elim (Bool-cases v.running) [
  | inl y ↦
      inl (y, ap (λ b. some (if b then record v { running = false; is_open = false } else v)) y)
  | inr n ↦
      inr (n, ap (λ b. some (if b then record v { running = false; is_open = false } else v)) n)
]

stop-Ended : (s : ClientSession) → Ended s (stop s)
unfolding stop
stop-Ended s = (map_receiver stop_receiver s.rtp_receiver, stop_receiver-Ended s.rtp_receiver, refl)

module _ (now : ℕ) (w : Server) where
  fresh_of-Kept : (d : Dict ℕ) → Kept now w d (fresh_of now w d)
  unfolding fresh_of
  fresh_of-Kept [] = nothing
  fresh_of-Kept ((id, a) ∷ d) =
      let rest = fresh_of-Kept d in
      let at : Bool → Dict ℕ = λ b. if b then fresh_of now w d else (id, a) ∷ fresh_of now w d in
      elim (Bool-cases (is_expired w.config now (session_at w a))) [
        | inl y ↦
            subst (Kept now w ((id, a) ∷ d)) (sym (ap at y))
              (goes id a (is_expired-IsOverdue w.config now (session_at w a) y) rest)
        | inr n ↦
            subst (Kept now w ((id, a) ∷ d)) (sym (ap at n))
              (stays id a (is_expired-IsFresh w.config now (session_at w a) n) rest)
      ]

  fresh_paths-Swept : (ms : Dict MediaPath) → Swept now w ms (fresh_paths now w ms)
  unfolding fresh_paths
  fresh_paths-Swept [] = no_path
  fresh_paths-Swept ((p, m) ∷ ms) = path p m (fresh_of-Kept m.sessions) (fresh_paths-Swept ms)

  either_expired : (x y e : Bool) → ((x && e) || (y && e)) ≡ ((x || y) && e)
  either_expired x y e = ground arith

  closes-among :
      (d : Dict ℕ) (b : ℕ)
      → closes now w d b ≡ (among d b && is_expired w.config now (session_at w b))
  unfolding closes among
  closes-among [] b = refl
  closes-among ((id, a) ∷ d) b =
      let e = is_expired w.config now (session_at w b) in
      ap (λ x. ((a == b) && e) || x) (closes-among d b) ∙ either_expired (a == b) (among d b) e

  closes_any-among_any :
      (ms : Dict MediaPath) (b : ℕ)
      → closes_any now w ms b ≡ (among_any ms b && is_expired w.config now (session_at w b))
  unfolding closes_any among_any
  closes_any-among_any [] b = refl
  closes_any-among_any ((p, m) ∷ ms) b =
      let e = is_expired w.config now (session_at w b) in
      ap (λ x. x || closes_any now w ms b) (closes-among m.sessions b)
      ∙ (ap (λ x. (among m.sessions b && e) || x) (closes_any-among_any ms b)
          ∙ either_expired (among m.sessions b) (among_any ms b) e)

  -- What becomes of a session.
  abbrev pub Outcome : Bool → ClientSession → ClientSession → Type 0
  Outcome listed s s' =
      ((listed ≡ true) × IsOverdue w.config now s × Ended s s')
      ⊎ (((listed ≡ false) ⊎ IsFresh w.config now s) × (s' ≡ s))

  stop-Outcome :
      (listed : Bool) (s : ClientSession)
      → Outcome listed s (if listed && is_expired w.config now s then stop s else s)
  stop-Outcome false s = inr (inl refl, refl)
  stop-Outcome true s =
      let at : Bool → ClientSession = λ b. if b then stop s else s in
      elim (Bool-cases (is_expired w.config now s)) [
        | inl y ↦ inl (
          refl,
          is_expired-IsOverdue w.config now s y,
          subst (Ended s) (sym (ap at y)) (stop-Ended s),
        )
        | inr n ↦ inr (inr (is_expired-IsFresh w.config now s n), ap at n)
      ]

  -- A round keeps in each path just the sessions that are not overdue, in their order, and changes
  -- nothing else of the paths and nothing of the configuration. A session is overdue if it has had a
  -- sign of life and the last one, in nanoseconds, is longer ago than the timeout in milliseconds. Each
  -- session that some path has and that is overdue ends: it neither plays nor sends, its queue is empty,
  -- and a receiver that ran is stopped and closed. The rest of it, and every other session, is as it
  -- was.
  pub cleanup-Swept :
      Swept now w w.paths (cleanup now w).paths
      × ((cleanup now w).config ≡ w.config)
      × ((b : ℕ) → Outcome (among_any w.paths b) (session_at w b) (session_at (cleanup now w) b))
  cleanup-Swept =
      let (paths, config, sessions) = cleanup-closes now w in
      (
        subst (Swept now w w.paths) (sym paths) (fresh_paths-Swept w.paths),
        config,
        λ b.
            subst (Outcome (among_any w.paths b) (session_at w b))
              (sym (
                sessions b
                ∙ ap (λ x. if x then stop (session_at w b) else session_at w b)
                    (closes_any-among_any w.paths b)))
              (stop-Outcome (among_any w.paths b) (session_at w b)),
      )
