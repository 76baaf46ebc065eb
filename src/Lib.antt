-- ===== src/Lib.antt =====
-- Verification library of libspaznet: its protocol code.
--
-- libspaznet is an event-driven network library; its examples are protocol stacks on top of it. The
-- library here models what decides what is on the wire and what is remembered, each in the module of
-- its name. Of src and include:
--   * Utils: src/utils/*.cpp. Byte order, strict numbers, header lookup, trimming.
--   * Codec.Huffman: src/codec/huffman.cpp, the code that HTTP/2 and HTTP/3 share; Huffman/Table has
--     its table, Huffman/Paths the tree seen as paths.
--   * Reactor: src/reactor/buffered_connection.cpp without TLS. InputBuffer and OutputBuffer are its
--     two queues of bytes, Connection its callbacks and methods, on both.
-- Of example/http2:
--   * Http2.Frame, Http2.Settings, Http2.Hpack, Http2.Message, Http2.Connection: src/codec.cpp and
--     include/libspaznet/http2/handler.hpp. Hpack/Encode and Hpack/Decode are the two directions of
--     HPACK on the integers and strings of Hpack; Message has requests, responses and the frames that
--     are built of them (`to_frames`), on Frame, Settings and Hpack.
-- Of example/http-websocket:
--   * Websocket.Frame: src/handler.cpp, the wire format. Websocket.Header and Websocket.Session: the
--     frame loop of src/dispatcher_reactor.cpp, from bytes that arrive to messages and control frames.
-- Of example/quic-http3:
--   * Quic.VarInt: src/quic/varint.cpp. Numbers of 62 bits in 1, 2, 4 or 8 bytes.
--   * Quic.Frame: include/libspaznet/quic/frame.hpp (the types), src/quic/frame.cpp in Frame/Parse
--     (`parse_frame`, `parse_frames`) and Frame/Encode (`encode_frame`).
--   * Quic.PnSpace: src/quic/pn_space.cpp. What was received of one packet number space, and the ACK
--     frame that says so, which Quic.Frame writes.
--   * Quic.Packet: src/quic/packet.cpp, the long header and the reconstruction of packet numbers.
--   * Quic.TransportParams: src/quic/transport_params.cpp, in Encode and Decode.
--   * Quic.Stream: src/quic/stream.cpp. Stream/Recv is the receive side (`deliver`,
--     `read_contiguous`), Stream/Send the send side (`write`, `pull_send`, `on_acked`, `on_lost`).
--   * Http3.H3Frame: src/http3/h3frame.cpp, the frames of HTTP/3 on a stream.
--   * Quic.Recovery: src/quic/recovery.cpp. Round-trip estimate and probe timeout.
--   * Quic.Congestion: src/quic/congestion.cpp. The congestion window.
-- Wire holds the two shapes that the codecs are written in: a Reader is a function with a span, an
-- offset that it moves and the answer false as `none`; a Writer appends to a vector, with `none` for
-- an exception. Base passes on the names of the libraries. Tests holds the theorems at concrete
-- inputs.
--
-- Conventions. A byte, a `uint64_t` and a `std::size_t` are natural numbers, and sums that the code
-- does in 64 bits have `% 2 ^ 64`; an `int` is one of the integers of Base.Ints; a duration is a
-- signed count in the code and a natural number in Quic.Recovery, where what overflows answers
-- `none`. A `std::vector` is a list and so is a `std::string`, of its bytes; a `std::map` is a list
-- in the order of its keys, a `std::unordered_map` one in the order in which it is walked; a
-- `std::optional` is an Option, a struct a record with its fields, a `std::variant` or enum a data
-- type. Functions that write through a reference return the new value; getters are the fields. On
-- false the code restores the offset or leaves it unspecified, so no offset is modelled there, but
-- for `Frame::parse` of HTTP/2, whose model says where the offset is left. Spans have fewer than 2
-- ^ 63 bytes.
--
-- What is outside of a connection is an argument: the answers of the socket, in the order of the calls,
-- with "try again" behind them; the events of the loop, of which one comes only for a direction that
-- is registered and for one direction at a time; what `on_data_` calls. `World` counts what the
-- connection did to them. A handler of WebSocket messages gets them, and what it sends is left out.
--
-- Loops. Loops over a list are recursion on it. `parse_frames` runs on fuel, the length of the
-- payload, which is enough since each frame takes a byte; so do the loops over SETTINGS entries, over
-- transport parameters and over the fields of HPACK. `skip_zeros` has the rest of the payload as fuel,
-- `to_frames` the length of the body. The bytes of an integer of HPACK and those that the Huffman
-- encoder puts out per symbol are at most five, which is their fuel. The frame loop of WebSocket has
-- two turns for each byte that is buffered, and two more.
--
-- Not modelled: sockets, threads, coroutines and the event loop (src/platform, src/server_impl.cpp),
-- OpenSSL and what calls it (src/tls, crypto.cpp, tls.cpp), logging, demos, tests and fuzz targets. Of
-- packet.cpp the encryption is not modelled. HTTP/1.1, UDP, QPACK, the QUIC connection, the WebSocket
-- handshake and the dispatchers but for the frame loop of Websocket.Session are outside.
pub mod Base
pub mod Wire
pub mod Quic
pub mod Http3
pub mod Utils
pub mod Reactor
pub mod Tests
pub mod Codec
pub mod Http2
pub mod Websocket
