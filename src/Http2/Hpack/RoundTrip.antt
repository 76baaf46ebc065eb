-- ===== src/Http2/Hpack/RoundTrip.antt =====
-- `decode_headers` answers the headers that `encode_headers` was given.
use mathlib.Core.List.{Perm}
use libspaznet.Base.{
  lt→ltb, ltb-ge, Bytes, length, All, length-append, ℕ, zero, suc, ◌+◌, ◌^◌, ◌≤◌, ◌<◌, ◌≡◌, refl,
  ap, ◌∙◌, some, [], ◌∷◌, arith,
}
use libspaznet.Wire.RoundTrip.{At, At-skip, At-whole}
use libspaznet.Utils.Header.{Headers}
use libspaznet.Http2.Hpack.Encode.{emit, emit_all, ordered, encode_headers}
use libspaznet.Http2.Hpack.Decode.{store, decode_loop, decode_headers}
use libspaznet.Http2.Hpack.Fields.{IsEntry, Parses-emit, emit-some_bytes}
use libspaznet.Http2.Hpack.Order.{
  Distinct, Distinct-perm, All-ordered, ordered-perm, assign_all, assign_all-append, Apart-nil,
}

decode_loop-end :
    (fuel : ℕ) (buf : Bytes) (off : ℕ) (headers : Headers)
    → length buf ≤ off
    → decode_loop fuel buf off headers ≡ some headers
unfolding decode_loop
decode_loop-end zero buf off headers h = rw (ltb-ge off (length buf) h) refl
decode_loop-end (suc fuel) buf off headers h = rw (ltb-ge off (length buf) h) refl

decode_loop-emit_all :
    (es : Headers) (fuel : ℕ) (buf : Bytes) (off : ℕ) (headers : Headers)
    → All IsEntry es
    → At buf off (emit_all es)
    → length (emit_all es) ≤ fuel
    → decode_loop fuel buf off headers ≡ some (assign_all es headers)
unfolding decode_loop emit_all
decode_loop-emit_all [] fuel buf off headers hs at enough =
    decode_loop-end fuel buf off headers (omega (arith, at.ends))
decode_loop-emit_all (e ∷ rest) zero buf off headers hs at enough =
    absurd (omega (arith, length-append (emit e) (emit_all rest), emit-some_bytes e))
decode_loop-emit_all (e ∷ rest) (suc fuel) buf off headers (h, hs) at enough =
    let sizes = length-append (emit e) (emit_all rest) in
    rw
      (
        lt→ltb off (length buf) (omega (arith, at.ends, sizes, emit-some_bytes e)),
        Parses-emit e h buf off (emit_all rest) at,
        decode_loop,
      )
      (decode_loop-emit_all rest fuel buf (off + length (emit e)) (store (some e) headers) hs
        (At-skip buf off (emit e) (emit_all rest) at) (omega (arith, sizes, emit-some_bytes e)))

-- Headers that are encoded and decoded again are the same entries: the decoder ends, and answers
-- them in the order in which the encoder emitted them, which is a permutation of theirs. It holds
-- for the entries of a map, so that no name occurs twice, with names that are not empty, lengths
-- below 2 ^ 32 and fewer than 2 ^ 63 bytes in all.
pub decode_headers-encode_headers :
    (headers : Headers)
    → Distinct headers
    → All IsEntry headers
    → length (encode_headers headers) < 2 ^ 63
    → (decode_headers (encode_headers headers) ≡ some (ordered headers))
      × Perm (ordered headers) headers
unfolding decode_headers encode_headers
decode_headers-encode_headers headers d hs room =
    let p = ordered-perm headers in
    let bytes = emit_all (ordered headers) in
    (
      decode_loop-emit_all (ordered headers) (length bytes) bytes 0 []
            (All-ordered IsEntry headers hs) (At-whole bytes room) (omega arith)
          ∙ ap some (
              assign_all-append (ordered headers) [] (Distinct-perm (ordered headers) headers p d)
                (Apart-nil (ordered headers))),
      p,
    )
