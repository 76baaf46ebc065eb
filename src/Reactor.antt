-- ===== src/Reactor.antt =====
-- src/reactor/buffered_connection.cpp: connections driven by the callbacks of the event loop.
pub mod InputBuffer
pub mod OutputBuffer
pub mod Connection
