-- ===== src/Server/Connection.antt =====
-- `RtspConnection` of src/server/rtsp_server.cpp: its state, its replies, and the setups.
pub mod Describe
pub mod Setup
pub mod Requests
pub mod Feed
pub mod Phases
pub mod Sound
pub mod Guarded
use rtsp_sdk.Common.{ℕ, ◌+◌, Bool, false, Option, some, List, [], ◌∷◌, ◌++◌, length, if◌then◌else◌}
use rtsp_sdk.Text.Chars.{Text, codes}
use rtsp_sdk.Text.Numbers.{ℤ, pos}
use rtsp_sdk.Rtsp.Response.{Response, create_error}
use rtsp_sdk.Server.Session.{ClientSession}
use rtsp_sdk.Server.Paths.{Server, change_session}
use rtsp_sdk.Server.Auth.{Digest}

-- What one request meets outside: the addresses of the connection, the clocks (`now` in nanoseconds,
-- `seconds` since the epoch), the random session id with its std::hash, a random nonce, whether the
-- ports that are tried can be bound, and whether the reply is sent in time.
pub record Env : Type 0 where
  pub peer_ip : Text
  pub local_ip : Text
  pub now : ℕ
  pub seconds : ℕ
  pub session_id : Text
  pub id_hash : ℕ
  pub nonce : Text
  pub binds : List Bool
  pub is_sent : Bool

-- The connection with the server it shares. `session` is the place of the session object; `is_open`
-- is lost when the socket is shut down.
pub record State : Type 0 where
  pub server : Server
  pub session : Option ℕ
  pub digest : Digest
  pub replies : List Response
  pub is_open : Bool

-- `sendResponse`.
unfoldable pub send_response : Env → Response → State → State
send_response env resp st = record st {
  replies = st.replies ++ (resp ∷ []);
  is_open = if env.is_sent then st.is_open else false;
}

unfoldable pub send_error : Env → ℤ → ℕ → Text → State → State
send_error env cseq code reason st = send_response env (create_error cseq (pos code) reason) st

abbrev pub not_valid : Env → ℤ → State → State
not_valid env cseq st = send_error env cseq 455 (codes "Method Not Valid In This State") st

abbrev pub no_session : Env → ℤ → State → State
no_session env cseq st = send_error env cseq 454 (codes "Session Not Found") st

abbrev pub not_found : Env → ℤ → State → State
not_found env cseq st = send_error env cseq 404 (codes "Not Found") st

abbrev pub bad_request : Env → ℤ → State → State
bad_request env cseq st = send_error env cseq 400 (codes "Bad Request") st

abbrev pub not_allowed : Env → ℤ → State → State
not_allowed env cseq st = send_error env cseq 459 (codes "Aggregate Operation Not Allowed") st

abbrev pub internal_error : Env → ℤ → State → State
internal_error env cseq st = send_error env cseq 500 (codes "Internal Server Error") st

-- A new session object, and the connection that has it.
unfoldable pub open_session : ClientSession → State → State
open_session s st = record st {
  server = record st.server { objects = st.server.objects ++ (s ∷ []) };
  session = some (length st.server.objects);
}

-- A change of the session object at `a`.
unfoldable pub on_session : ℕ → (ClientSession → ClientSession) → State → State
on_session a f st = record st { server = change_session a f st.server }

unfoldable pub on_server : (Server → Server) → State → State
on_server f st = record st { server = f st.server }
