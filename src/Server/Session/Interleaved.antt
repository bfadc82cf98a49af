-- ===== src/Server/Session/Interleaved.antt =====
-- RTP packets on the control connection: how `sendLoop` of src/server/rtsp_server.cpp frames a packet,
-- and how `RtspConnection::handle` skips one.
use rtsp_sdk.Common.{
  ℕ, ◌+◌, ◌<◌, ◌^◌, ◌≡◌, refl, Option, none, some, List, [], ◌∷◌, ◌++◌, length, length-append, drop,
  drop-append, drop-drop, sym, ltb, if◌then◌else◌, arith, le→ltb,
}
use rtsp_sdk.Common.Bytes.{be16, read_be16, read_be16-be16}

-- '$', the channel, the length in 16 bits, and the packet.
unfoldable pub interleaved : ℕ → List ℕ → List ℕ
interleaved channel packet = b'$' ∷ channel ∷ (be16 (length packet) ++ packet)

-- A packet and its channel.
abbrev pub Message : Type 0
Message = ℕ × List ℕ

unfoldable pub framed_all : List Message → List ℕ
framed_all [] = []
framed_all ((c, packet) ∷ ms) = interleaved c packet ++ framed_all ms

abbrev pub IsShort : Message → Type 0
IsShort m = length m.1 < 2 ^ 16

-- The bytes behind a packet at the front of the buffer; `none` waits for more of it.
unfoldable pub skip_packet : List ℕ → Option (List ℕ)
skip_packet buffer =
    if ltb (length buffer) 4
    then none
    else if ltb (length buffer) (4 + read_be16 (drop 2 buffer))
    then none
    else some (drop (4 + read_be16 (drop 2 buffer)) buffer)

-- A framed packet of less than 2 ^ 16 bytes is skipped as a whole, and nothing behind it.
pub skip_packet-interleaved :
    (channel : ℕ) (packet rest : List ℕ)
    → length packet < 2 ^ 16
    → skip_packet (interleaved channel packet ++ rest) ≡ some rest
unfolding skip_packet interleaved be16
skip_packet-interleaved channel packet rest h =
    let n = length packet in
    let buffer = interleaved channel packet ++ rest in
    let field : read_be16 (drop 2 buffer) ≡ n = read_be16-be16 n (packet ++ rest) h in
    let size = length-append packet rest in
    rw
      (
        field,
        le→ltb (length buffer) 4 (omega (arith, size)),
        le→ltb (length buffer) (4 + n) (omega (arith, size)),
        sym (drop-drop 4 n buffer),
        drop-append packet rest n refl,
      )
      refl
