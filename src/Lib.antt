-- ===== src/Lib.antt =====
-- rtsp-sdk: a library for streaming H.264 and H.265 video over RTSP/RTP, and for publishing it over
-- RTMP, with servers, clients, publishers and an ONVIF daemon on top.
--
-- The parts modelled here, the files that model them, and the code they stand for:
--   Common      names shared by all modules: Boolean tests and lists over the native numbers
--               (Tests, Lists), bit masks as arithmetic (Bits), big- and little-endian fields (Bytes).
--   Net         Link is the interface that a client of a connection relies on: validity, and a send
--               that adds all of its bytes to the wire when it reports success. Socket is
--               `Socket::sendAll` of src/rtsp-common/socket.cpp over a schedule of kernel answers, and
--               the instance of Link that it gives.
--   Rtmp.Amf0   src/rtmp/amf0_codec.cpp: Value is `amf0::Value`, Encode and Decode are `encode` and
--               `parseValue`, `parseValues`; Access is `get` and the setters.
--   Rtmp.Chunk  src/rtmp/rtmp_chunk_stream.cpp: Encoder is `ChunkStreamEncoder::writeMessage` over any
--               Link, Decoder is `ChunkStreamDecoder::feed` and `parseOneChunk` with the state of
--               every chunk stream and the buffer.
--   Rtmp.Handshake  src/rtmp/rtmp_handshake.cpp: `recvExact` over a schedule of answers, and
--               `rtmpSimpleHandshakeClient` over any Link.
--   Rtmp.Flv    src/rtmp/flv_tag_encoder.cpp, avc_config_record.cpp and hevc_config_record.cpp: Tags
--               are the FLV video tags, Config the two configuration records, Avcc is `annexBToAvcc`.
--   Rtp         src/rtsp-common/rtp_packer.cpp: Frame has the shared structs, Nalu is
--               `parseNalusInternal`, Packer is `H264RtpPacker` and `H265RtpPacker`, Sender the RTCP
--               sender report.
--   Client      src/client/rtsp_client.cpp, the class `RtpReceiver`: Receiver has its fields and small
--               steps, Receiver.Payload is `processVideoPayload`, Receiver.Packet is
--               `processRtpPacket` and `ingestRtpPacket` with the reorder buffer. Interleaved is
--               `recvExact` and `tcpReceiveLoop` of `RtspClient`.
--   Stream      no code of its own: a frame from `packFrame` through `ingestRtpPacket`, and, over a
--               control connection, from `sendLoop` through `tcpReceiveLoop`.
--   Text        src/rtsp-common/common.cpp: Base64, the safe number parsers (Numbers), `md5Hex` (Md5);
--               and what the code uses of the standard library on texts: Chars, Search, Lines, Dict
--               (std::map), Patterns (the regular expressions). Find has lemmas.
--   Rtsp        src/rtsp-common/rtsp_request.cpp: Request, Transport and Response are the classes
--               `RtspRequest` and `RtspResponse`; Headers is what both do with header lines.
--   Sdp         src/rtsp-common/sdp.cpp: Builder and Parser are `SdpBuilder` and `SdpParser`.
--   Server      src/server/rtsp_server.cpp: Config has `RtspServerConfig` and the RTP ports, Url
--               `extractPathFromUrl`, Session `ClientSession`, Paths `MediaPath` and the operations
--               of `RtspServer` on paths and frames (Paths.Extract: the parameter sets), Auth the
--               checks of Basic and Digest, Api the calls that set a server up. Session.Sending is
--               `sendLoop`. Connection is `RtspConnection`: Describe, Setup and Requests are its
--               handlers, Feed the loop over its buffer. Connection.Phases has the
--               state machine of the sessions, Connection.Sound.Steps the server as a system of
--               steps.
-- The files below these hold the proofs and are named for what they are about; those named Examples
-- hold runs and concrete instances.
--
-- How they interact: the RTMP encoder writes through a Link, which a Socket is; the decoder reads what
-- the encoder wrote, in pieces of any size. The RTP packers cut a frame into packets, the receiver of
-- the client puts the frame together again. A connection of the RTSP server cuts its buffer into
-- packets and requests, parses a request, checks its authorization and hands it to a handler, which
-- answers by a response and changes the paths, the sessions and the configuration that all
-- connections share: the text of a DESCRIBE comes from the SDP builder, the one of an ANNOUNCE goes to
-- the SDP parser, a SETUP makes a packer and a sender or a receiver, and frames that are pushed to a
-- path wait in the queues of its sessions. A round of `sendLoop` packs such a frame and puts it on the
-- control connection, over a Link, or hands it to UDP; the loop of the client on its control
-- connection reads the packets and gives them to its receiver.
--
-- State is a record that each operation takes and gives back; fallible code gives an Option or a
-- Result. A byte is a number below 256, a buffer and its length are a list. Wrap-around is written
-- out, `% 2 ^ w`. A call of the receiver's callback is a frame put on a list. The sessions of the server
-- are objects at fixed places, which connections and paths refer to; objects that nothing refers to
-- any more stay where they are. The clocks, random texts, addresses and the ports that can be bound
-- are arguments. Each request, push and cleanup is one step.
--
-- Fuel: the loops of the AMF0 parser, of `feed`, `sendAll`, `writeMessage`, `parseNalusInternal`,
-- `annexBToAvcc` and of the fragments run on fuel, and running out is a result of its own: each of
-- these functions is started with a number that is larger than the bytes (or kernel answers) that its
-- loop can use up. It runs out only where the code does not end: with a chunk size of 0, which the
-- setter excludes, or with an MTU that leaves no room for a byte in a fragment. The loops over
-- aggregation packets and over the reorder buffer are given the number of bytes or packets that are
-- left, and with none left the code stops as well.
--
-- The loop over the parameters of a Digest header, the loop over the buffer of a connection and the
-- digits of a number use up a character, a byte or a digit in each round, and their fuel is the length
-- or the number and one more; so is that of `tcpReceiveLoop`, which takes a byte in each round.
--
-- Not modelled: threads and locks, the sockets' other calls, memory and its exhaustion; of the
-- server, the reception from publishers, start and stop, and the registry of instances; the sessions of client and publishers, the RTMP commands, ONVIF, and the vendored HTTP
-- library. `size_t` counters of bytes that cannot grow to 2 ^ 64 are taken as numbers. A frame rate
-- in an SDP is cut to its whole part without the rounding of a double.
pub mod Common
pub mod Net
pub mod Rtmp
pub mod Rtp
pub mod Client
pub mod Text
pub mod Rtsp
pub mod Sdp
pub mod Server
pub mod Stream
