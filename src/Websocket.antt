-- ===== src/Websocket.antt =====
-- example/http-websocket: the frames of RFC 6455, and the connection that reads them.
pub mod Frame
pub mod Header
pub mod Session
