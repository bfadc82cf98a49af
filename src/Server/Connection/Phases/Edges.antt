-- ===== src/Server/Connection/Phases/Edges.antt =====
-- What PLAY, PAUSE and RECORD of src/server/rtsp_server.cpp do to the phase of a session.
use rtsp_sdk.Common.{
  ℕ, ◌≡◌, refl, sym, ap, subst, Bool, true, false, Option, none, some, if◌then◌else◌, Bool-cases,
  inl, inr,
}
use rtsp_sdk.Text.Numbers.{pos}
use rtsp_sdk.Rtsp.Request.{play, pause, do_record}
use rtsp_sdk.Server.Session.{
  ClientSession, Role, player, publisher, PublishReceiver, stop, stop_receiver, start_receiver,
  map_receiver,
}
use rtsp_sdk.Server.Connection.Requests.{start_playing, start_recording, can_record}
use rtsp_sdk.Server.Connection.Phases.{
  phase_of, phase_from, receiver_phase, Edge, IsPublisher, plays, plays_on, publisher_plays,
  is_announced, is_prepared, is_recording, pauses, pauses_ready, pauses_announced, pauses_prepared,
  pauses_recording, records, records_on,
}

receiver-IsPublisher : (v : Option PublishReceiver) → IsPublisher (receiver_phase v)
unfolding receiver_phase
receiver-IsPublisher none = is_announced
receiver-IsPublisher (some v) = elim (Bool-cases v.running) [
  | inl y ↦ rw y is_recording
  | inr n ↦ rw n is_prepared
]

-- PLAY.
started :
    (s : ClientSession) (b : Bool)
    → s.playing ≡ b
    → phase_of (if b then s else record s { playing = true; sending = true })
      ≡ phase_from s.role true s.rtp_receiver
unfolding phase_of
started s true e = ap (λ x. phase_from s.role x s.rtp_receiver) e
started s false e = refl

play-Edge :
    (role : Role) (b : Bool) (v : Option PublishReceiver)
    → Edge play (phase_from role b v) (pos 200) (phase_from role true v)
unfolding phase_from
play-Edge player true v = plays_on
play-Edge player false v = plays
play-Edge publisher b v = publisher_plays (receiver-IsPublisher v)

play_at :
    (s : ClientSession) → Edge play (phase_of s) (pos 200) (phase_from s.role true s.rtp_receiver)
unfolding phase_of
play_at s = play-Edge s.role s.playing s.rtp_receiver

pub start_playing-Edge :
    (s : ClientSession) → Edge play (phase_of s) (pos 200) (phase_of (start_playing s))
unfolding start_playing
start_playing-Edge s =
    subst (Edge play (phase_of s) (pos 200)) (sym (started s s.playing refl)) (play_at s)

-- PAUSE.
pause_receiver :
    (v : PublishReceiver)
    → Edge pause (receiver_phase (some v)) (pos 200) (receiver_phase (some (stop_receiver v)))
unfolding receiver_phase stop_receiver
pause_receiver v = elim (Bool-cases v.running) [
  | inl y ↦ rw y pauses_recording
  | inr n ↦ rw n pauses_prepared
]

stopped :
    (role : Role) (b : Bool) (v : Option PublishReceiver)
    → Edge pause
        (phase_from role b v)
        (pos 200)
        (phase_from role false (map_receiver stop_receiver v))
unfolding phase_from receiver_phase
stopped player true v = pauses
stopped player false v = pauses_ready
stopped publisher b none = pauses_announced
stopped publisher b (some v) = pause_receiver v

pub pause-Edge : (s : ClientSession) → Edge pause (phase_of s) (pos 200) (phase_of (stop s))
unfolding phase_of stop
pause-Edge s = stopped s.role s.playing s.rtp_receiver

-- RECORD, of a publisher with a receiver.
start_receiver-Edge :
    (v : PublishReceiver)
    → Edge do_record (receiver_phase (some v)) (pos 200) (receiver_phase (some (start_receiver v)))
unfolding receiver_phase start_receiver
start_receiver-Edge v = elim (Bool-cases v.running) [
  | inl y ↦ rw y records_on
  | inr n ↦ rw n records
]

recorded :
    (role : Role) (b : Bool) (v : Option PublishReceiver)
    → can_record role v ≡ true
    → Edge do_record
        (phase_from role b v)
        (pos 200)
        (phase_from role b (map_receiver start_receiver v))
unfolding phase_from
recorded player b none h = cc
recorded player b (some v) h = cc
recorded publisher b none h = cc
recorded publisher b (some v) h = start_receiver-Edge v

pub start_recording-Edge :
    (now : ℕ) (s : ClientSession)
    → can_record s.role s.rtp_receiver ≡ true
    → Edge do_record (phase_of s) (pos 200) (phase_of (start_recording now s))
unfolding phase_of start_recording
start_recording-Edge now s h = recorded s.role s.playing s.rtp_receiver h
