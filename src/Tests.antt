-- ===== src/Tests.antt =====
-- The theorems at concrete inputs.
pub mod Frames
pub mod Numbers
pub mod Packets
pub mod Streams
pub mod Texts
pub mod Messages
pub mod Params
pub mod Reactor
pub mod Websocket
