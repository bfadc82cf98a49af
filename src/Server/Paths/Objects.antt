-- ===== src/Server/Paths/Objects.antt =====
-- The list of session objects of the server under its updates.
use rtsp_sdk.Common.{
  ℕ, zero, suc, ◌<◌, ◌≡◌, refl, ap, sym, subst, Option, none, some, List, [], ◌∷◌, ◌++◌, length,
  get_or, arith, Bool-cases, inl, inr,
}
use rtsp_sdk.Text.Chars.{Text}
use rtsp_sdk.Text.Dict.{put}
use rtsp_sdk.Rtp.Frame.{VideoFrame}
use rtsp_sdk.Server.Session.{ClientSession, new_session, push_frame}
use rtsp_sdk.Server.Paths.{
  Server, MediaPath, update, session_at, change_session, put_path, add_session, push_cached, is_idr,
}

module _ {ℓ} {A : Type ℓ} where
  pub length-update : (a : ℕ) (f : A → A) (xs : List A) → length (update a f xs) ≡ length xs
  unfolding update
  length-update a f [] = refl
  length-update zero f (x ∷ xs) = refl
  length-update (suc a) f (x ∷ xs) = ap suc (length-update a f xs)

  pub get_or-update :
      (a : ℕ) (f : A → A) (xs : List A) (d : A)
      → a < length xs
      → get_or (update a f xs) a d ≡ f (get_or xs a d)
  unfolding update
  get_or-update a f [] d h = absurd (omega arith)
  get_or-update zero f (x ∷ xs) d h = refl
  get_or-update (suc a) f (x ∷ xs) d h = get_or-update a f xs d (omega arith)

  pub get_or-last : (xs : List A) (x d : A) → get_or (xs ++ (x ∷ [])) (length xs) d ≡ x
  get_or-last [] x d = refl
  get_or-last (y ∷ xs) x d = get_or-last xs x d

-- The place of a session exists.
abbrev pub Has : Server → ℕ → Type 0
Has w a = a < length w.objects

pub Has-change :
    (w : Server) (a b : ℕ) (f : ClientSession → ClientSession)
    → Has w b
    → Has (change_session a f w) b
unfolding change_session
Has-change w a b f h = let e = length-update a f w.objects in omega (arith, e)

pub session_at-change :
    (w : Server) (a : ℕ) (f : ClientSession → ClientSession)
    → Has w a
    → session_at (change_session a f w) a ≡ f (session_at w a)
unfolding session_at change_session
session_at-change w a f h = get_or-update a f w.objects (new_session 0) h

-- What putting a session under its path does to the object: nothing, or one frame is pushed.
module _ {ℓ} (P : ClientSession → Type ℓ)
    (keep : (s : ClientSession) (frame : VideoFrame) → P s → P (push_frame s frame)) where
  push_cached-keeps :
      (o : Option VideoFrame) (a : ℕ) (w : Server)
      → Has w a
      → P (session_at w a)
      → P (session_at (push_cached o a w) a)
  unfolding push_cached
  push_cached-keeps none a w h p = p
  push_cached-keeps (some frame) a w h p = elim (Bool-cases (is_idr frame.frame_type)) [
    | inl y ↦ rw y (
        subst P (sym (session_at-change w a (λ s. push_frame s frame) h))
          (keep (session_at w a) frame p))
    | inr n ↦ rw n p
  ]

  pub add_session-keeps :
      (q : Text) (m : MediaPath) (id : Text) (a : ℕ) (w : Server)
      → Has w a
      → P (session_at w a)
      → P (session_at (add_session q m id a w) a)
  unfolding add_session put_path session_at
  add_session-keeps q m id a w h p =
      push_cached-keeps m.latest_frame a
        (put_path q (record m { sessions = put id a m.sessions }) w) h p

push_cached-Has :
    (o : Option VideoFrame) (a b : ℕ) (w : Server) → Has w b → Has (push_cached o a w) b
unfolding push_cached
push_cached-Has none a b w h = h
push_cached-Has (some frame) a b w h = elim (Bool-cases (is_idr frame.frame_type)) [
  | inl y ↦ rw y (Has-change w a b (λ s. push_frame s frame) h)
  | inr n ↦ rw n h
]

pub add_session-Has :
    (q : Text) (m : MediaPath) (id : Text) (a b : ℕ) (w : Server)
    → Has w b
    → Has (add_session q m id a w) b
unfolding add_session put_path
add_session-Has q m id a b w h =
    push_cached-Has m.latest_frame a b (put_path q (record m { sessions = put id a m.sessions }) w)
      h
