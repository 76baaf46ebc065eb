-- ===== src/Http3.antt =====
-- The HTTP/3 layer of example/quic-http3.
pub mod H3Frame
