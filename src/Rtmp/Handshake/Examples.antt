-- ===== src/Rtmp/Handshake/Examples.antt =====
-- The theorem on the handshake with a server that answers, and a socket that sends at once.
use rtsp_sdk.Common.{true, [], ◌∷◌, ◌++◌, replicate}
use rtsp_sdk.Net.Socket.{Socket, wrote, socket_link}
use rtsp_sdk.Rtmp.Handshake.{Inbox, came, nothing, c0_c1, handshake}
use rtsp_sdk.Rtmp.Handshake.Exact.{Shook, handshake-Shook}

abbrev answers : Inbox
answers = record {
  incoming = 3 ∷ (replicate 1536 7 ++ replicate 1536 0);
  turns = nothing ∷ came 2000 ∷ came 1000 ∷ came 2000 ∷ came 2000 ∷ [];
}

abbrev socket : Socket
socket = record { is_open = true; schedule = wrote 2000 ∷ wrote 2000 ∷ []; sent = [] }

handshake-Shook_example :
    Shook socket_link socket answers.incoming
      (c0_c1 (replicate 1528 5))
      (handshake socket_link socket answers (replicate 1528 5) 1000 900)
handshake-Shook_example = handshake-Shook socket_link socket answers (replicate 1528 5) 1000 900
