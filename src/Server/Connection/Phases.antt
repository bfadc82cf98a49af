-- ===== src/Server/Connection/Phases.antt =====
-- `processRequest` of src/server/rtsp_server.cpp as the state machine of RTSP: what each method does
-- to the phase of the session, and with which status it is answered.
pub mod Edges
pub mod Handlers
pub mod Setups
pub mod Publisher
pub mod Machine
use rtsp_sdk.Common.{
  ℕ, ◌≡◌, ◌≢◌, Bool, true, false, Option, none, some, [], ◌∷◌, ◌++◌, if◌then◌else◌,
}
use rtsp_sdk.Text.Numbers.{ℤ, pos}
use rtsp_sdk.Rtsp.Request.{
  Method, options, describe, setup, play, pause, teardown, announce, do_record, get_parameter,
  set_parameter,
}
use rtsp_sdk.Rtsp.Response.{Response}
use rtsp_sdk.Server.Session.{ClientSession, Role, player, publisher, PublishReceiver}
use rtsp_sdk.Server.Paths.{Server, session_at}
use rtsp_sdk.Server.Paths.Objects.{Has}
use rtsp_sdk.Server.Connection.{State}

pub data Phase : Type 0 where
  idle ready playing : Phase
  announced prepared recording : Phase

-- A player has been set up, or plays; a publisher has announced, has a receiver, or is recorded.
unfoldable pub receiver_phase : Option PublishReceiver → Phase
receiver_phase none = announced
receiver_phase (some v) = if v.running then recording else prepared

unfoldable pub phase_from : Role → Bool → Option PublishReceiver → Phase
phase_from player true v = playing
phase_from player false v = ready
phase_from publisher b v = receiver_phase v

unfoldable pub phase_of : ClientSession → Phase
phase_of s = phase_from s.role s.playing s.rtp_receiver

abbrev pub phase_at : Server → Option ℕ → Phase
phase_at w none = idle
phase_at w (some a) = phase_of (session_at w a)

unfoldable pub phase : State → Phase
phase st = phase_at st.server st.session

pub data IsPublisher : Phase → Type 0 where
  is_announced : IsPublisher announced
  is_prepared : IsPublisher prepared
  is_recording : IsPublisher recording

pub data IsQuery : Method → Type 0 where
  is_options : IsQuery options
  is_describe : IsQuery describe
  is_get : IsQuery get_parameter
  is_set : IsQuery set_parameter

-- From a phase, with a status, to a phase. An error leaves the phase; every other status is 200.
pub data Edge : Method → Phase → ℤ → Phase → Type 0 where
  refused : {m : Method} {p : Phase} {code : ℤ} → code ≢ pos 200 → Edge m p code p
  asked : {m : Method} {p : Phase} → IsQuery m → Edge m p (pos 200) p
  set_up : Edge setup idle (pos 200) ready
  set_up_receiver : Edge setup announced (pos 200) prepared
  set_up_again : Edge setup prepared (pos 200) prepared
  set_up_running : Edge setup recording (pos 200) recording
  announces : Edge announce idle (pos 200) announced
  plays : Edge play ready (pos 200) playing
  plays_on : Edge play playing (pos 200) playing
  publisher_plays : {p : Phase} → IsPublisher p → Edge play p (pos 200) p
  records : Edge do_record prepared (pos 200) recording
  records_on : Edge do_record recording (pos 200) recording
  pauses : Edge pause playing (pos 200) ready
  pauses_ready : Edge pause ready (pos 200) ready
  pauses_announced : Edge pause announced (pos 200) announced
  pauses_prepared : Edge pause prepared (pos 200) prepared
  pauses_recording : Edge pause recording (pos 200) prepared
  leaves : {p : Phase} → Edge teardown p (pos 200) idle

-- The session of the connection is one of the objects.
abbrev pub PlacedAt : Server → Option ℕ → Type 0
PlacedAt w none = Unit
PlacedAt w (some a) = Has w a

abbrev pub Placed : State → Type 0
Placed st = PlacedAt st.server st.session

-- One reply is given, its status belongs to an edge, and the session is still an object.
abbrev pub Follows : Method → State → State → Type 0
Follows m st after =
    (resp : Response) × (after.replies ≡ st.replies ++ (resp ∷ []))
    × Edge m (phase st) resp.status_code (phase after)
    × Placed after
