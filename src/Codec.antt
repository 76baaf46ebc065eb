-- ===== src/Codec.antt =====
-- src/codec: the codecs that HTTP/2 and HTTP/3 share.
pub mod Huffman
