-- ===== src/Server/Connection/Sound/Served.antt =====
-- The changes that the handlers of src/server/rtsp_server.cpp make to a session keep it equipped.
use rtsp_sdk.Common.{
  ℕ, ◌≡◌, ◌≢◌, refl, ◌∙◌, subst, sym, true, ◌⊎◌, inl, inr, none, some, [], ◌∷◌, All-append, arith,
  if_on,
}
use rtsp_sdk.Text.Chars.{Text}
use rtsp_sdk.Rtsp.Request.{Request}
use rtsp_sdk.Rtsp.Transport.{get_transport}
use rtsp_sdk.Rtp.Frame.{CodecType}
use rtsp_sdk.Server.Session.{ClientSession, Role, player, publisher, PublishReceiver, new_session}
use rtsp_sdk.Server.Connection.{Env, State, open_session, on_session}
use rtsp_sdk.Server.Connection.Describe.{publisher_session}
use rtsp_sdk.Server.Connection.Setup.{player_session, uses_tcp, set_client_ports, set_receiver}
use rtsp_sdk.Server.Connection.Requests.{start_playing, start_recording, touch}
use rtsp_sdk.Server.Connection.Sound.{EquippedAs, Equipped, AllEquipped, Keeps, change_session-All}

abbrev pub Equips : State → Type 0
Equips st = AllEquipped st.server

-- Changes of a session that its equipment does not depend on.
kept_equipment :
    (role : Role) (s t : ClientSession)
    → t.rtp_packer ≡ s.rtp_packer
    → t.use_tcp_interleaved ≡ s.use_tcp_interleaved
    → t.rtp_sender ≡ s.rtp_sender
    → t.frame_queue ≡ s.frame_queue
    → EquippedAs role s
    → EquippedAs role t
kept_equipment player s t e f g q h = (
  subst (λ x. x ≢ none) (sym e) h.0,
  subst (λ x. (x ≡ true) ⊎ (t.rtp_sender ≢ none)) (sym f)
      (subst (λ x. (s.use_tcp_interleaved ≡ true) ⊎ (x ≢ none)) (sym g) h.1),
)
kept_equipment publisher s t e f g q h = (e ∙ h.0, q ∙ h.1)

pub start_playing-Keeps : Keeps start_playing
unfolding start_playing
start_playing-Keeps s h =
    let t = record s { playing = true; sending = true } in
    if_on Equipped s.playing s t h (h.0, kept_equipment s.role s t refl refl refl refl h.1)

pub start_recording-Keeps : (now : ℕ) → Keeps (start_recording now)
unfolding start_recording
start_recording-Keeps now s h =
    (h.0, kept_equipment s.role s (start_recording now s) refl refl refl refl h.1)

pub touch-Keeps : (now : ℕ) → Keeps (touch now)
unfolding touch
touch-Keeps now s h = (h.0, kept_equipment s.role s (touch now s) refl refl refl refl h.1)

pub set_client_ports-Keeps : (r : Request) → Keeps (set_client_ports r)
unfolding set_client_ports
set_client_ports-Keeps r s h =
    (h.0, kept_equipment s.role s (set_client_ports r s) refl refl refl refl h.1)

pub set_receiver-Keeps : (v : PublishReceiver) → Keeps (set_receiver v)
unfolding set_receiver
set_receiver-Keeps v s h = (h.0, kept_equipment s.role s (set_receiver v s) refl refl refl refl h.1)

-- New sessions.
pub publisher_session-Equipped :
    (env : Env) (path : Text) (payload_type : ℕ)
    → Equipped (publisher_session env path payload_type)
unfolding publisher_session new_session
publisher_session-Equipped env path payload_type = (omega arith, (refl, refl))

pub player_tcp-Equipped :
    (env : Env) (r : Request) (path : Text) (codec : CodecType)
    → uses_tcp (get_transport r) ≡ true
    → Equipped (player_session env r path codec none)
unfolding player_session new_session
player_tcp-Equipped env r path codec h = (omega arith, ((λ e. cc), inl h))

pub player_udp-Equipped :
    (env : Env) (r : Request) (path : Text) (codec : CodecType) (port : ℕ)
    → Equipped (player_session env r path codec (some port))
unfolding player_session new_session
player_udp-Equipped env r path codec port = (omega arith, ((λ e. cc), inr (λ e. cc)))

pub open_session-All :
    (s : ClientSession) (st : State) → Equipped s → Equips st → Equips (open_session s st)
unfolding open_session
open_session-All s st k h = All-append Equipped st.server.objects (s ∷ []) h (k, tt)

pub on_session-All :
    (a : ℕ) (f : ClientSession → ClientSession) (st : State)
    → Keeps f
    → Equips st
    → Equips (on_session a f st)
unfolding on_session
on_session-All a f st k h = change_session-All a f st.server k h
