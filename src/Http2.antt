-- ===== src/Http2.antt =====
-- example/http2/src/codec.cpp and include/libspaznet/http2/handler.hpp: HTTP/2 frames, settings,
-- header compression and the messages built of them.
pub mod Frame
pub mod Settings
pub mod Hpack
pub mod Message
pub mod Connection
