-- ===== src/Wire.antt =====
-- How the codecs of example/quic-http3 walk a buffer: a read takes the span and an offset and
-- moves the offset on, a write appends to the output vector. `Reader` and `Writer` are these two
-- shapes with their sequencing, `RoundTrip` the rules by which a read meets a write.
pub mod Reader
pub mod Writer
pub mod RoundTrip
pub mod Codec
pub mod Safe
pub mod Loop
pub mod Slices
