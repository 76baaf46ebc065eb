-- ===== src/Quic.antt =====
-- The QUIC transport of example/quic-http3.
pub mod VarInt
pub mod Frame
pub mod PnSpace
pub mod Packet
pub mod TransportParams
pub mod Stream
pub mod Recovery
pub mod Congestion
