-- ===== src/Quic/Frame/RoundTrip.antt =====
-- `parse_frame` and `parse_frames` read back what `encode_frame` wrote.
use libspaznet.Quic.VarInt.RoundTrip.{Parses-decode}
use libspaznet.Base.{
  Bytes, length, replicate, length-append, length-replicate, head_of_drop, ℕ, zero, suc, ◌+◌, ◌-◌,
  ◌^◌, ◌≤◌, ◌<◌, ◌≡◌, refl, sym, ap, ◌∙◌, false, some, [], ◌∷◌, ◌++◌, arith,
}
use libspaznet.Wire.Reader.{◌>>=◌}
use libspaznet.Wire.RoundTrip.{At, At-behind, Emits, At-skip, Parses, At-whole}
use libspaznet.Quic.VarInt.{write_case, decode as read_varint}
use libspaznet.Quic.Frame.{Frame}
use libspaznet.Quic.Frame.Parse.{skip_zeros, parse_body, parse_frame, parse_padding}
use libspaznet.Quic.Frame.Encode.{encode_frame}
use libspaznet.Quic.Frame.Encodable.{IsEncodable, as_parsed, is_padding, Follows}
use libspaznet.Quic.Frame.Codecs.{
  Decodes, Decodes-ping, Decodes-reset_stream, Decodes-stop_sending, Decodes-crypto,
  Decodes-new_token, Decodes-max_data, Decodes-max_stream_data, Decodes-max_streams,
  Decodes-data_blocked, Decodes-stream_data_blocked, Decodes-streams_blocked,
  Decodes-new_connection_id, Decodes-retire_connection_id, Decodes-path_challenge,
  Decodes-path_response, Decodes-handshake_done,
}
use libspaznet.Quic.Frame.FlagCodecs.{Decodes-ack}
use libspaznet.Quic.Frame.CloseCodecs.{Decodes-connection_close, Decodes-stream}

Decodes-plain : (f : Frame) → is_padding f ≡ false → IsEncodable f → Decodes f
Decodes-plain (Frame.padding x) e h = cc
Decodes-plain Frame.ping e h = Decodes-ping
Decodes-plain (Frame.ack x) e h = Decodes-ack x h
Decodes-plain (Frame.reset_stream x) e h = Decodes-reset_stream x h
Decodes-plain (Frame.stop_sending x) e h = Decodes-stop_sending x h
Decodes-plain (Frame.crypto x) e h = Decodes-crypto x h
Decodes-plain (Frame.new_token x) e h = Decodes-new_token x h
Decodes-plain (Frame.stream x) e h = Decodes-stream x h
Decodes-plain (Frame.max_data x) e h = Decodes-max_data x h
Decodes-plain (Frame.max_stream_data x) e h = Decodes-max_stream_data x h
Decodes-plain (Frame.max_streams x) e h = Decodes-max_streams x.bidi x.maximum h
Decodes-plain (Frame.data_blocked x) e h = Decodes-data_blocked x h
Decodes-plain (Frame.stream_data_blocked x) e h = Decodes-stream_data_blocked x h
Decodes-plain (Frame.streams_blocked x) e h = Decodes-streams_blocked x.bidi x.limit h
Decodes-plain (Frame.new_connection_id x) e h = Decodes-new_connection_id x h
Decodes-plain (Frame.retire_connection_id x) e h = Decodes-retire_connection_id x h
Decodes-plain (Frame.path_challenge x) e h = Decodes-path_challenge x h
Decodes-plain (Frame.path_response x) e h = Decodes-path_response x h
Decodes-plain (Frame.connection_close x) e h = Decodes-connection_close x h
Decodes-plain Frame.handshake_done e h = Decodes-handshake_done

-- Reading the type first, `parse_frame` needs no test of its own for an empty rest.
pub parse_frame-bind :
    (buf : Bytes) (off : ℕ) → parse_frame buf off ≡ (read_varint >>= parse_body) buf off
unfolding parse_frame read_varint
parse_frame-bind buf off = ground arith

-- The loop stops at the first byte that is not zero.
skip_zeros_lem :
    (n fuel : ℕ) (buf : Bytes) (off count : ℕ) (rest : Bytes)
    → n ≤ fuel
    → At buf off (replicate n 0 ++ rest)
    → Follows (Frame.padding (record { count = 0 })) rest
    → skip_zeros fuel buf off count ≡ (count + n, off + n)
unfolding skip_zeros
skip_zeros_lem zero zero buf off count rest h at next = ground arith
skip_zeros_lem (suc n) zero buf off count rest h at next = absurd (omega arith)
skip_zeros_lem zero (suc fuel) buf off count [] h at next = ground (arith, at.ends)
skip_zeros_lem zero (suc fuel) buf off count (b ∷ rest) h at next =
    ground (arith, head_of_drop buf off b 0 rest at.reads)
skip_zeros_lem (suc n) (suc fuel) buf off count rest h at next = ground (
  arith,
  at.ends,
  head_of_drop buf off 0 0 (replicate n 0 ++ rest) at.reads,
  skip_zeros_lem n fuel buf (off + 1) (count + 1) rest (omega arith) (At-skip buf off (0 ∷ []) _ at)
      next,
)

parse_padding-At :
    (n : ℕ) (buf : Bytes) (off : ℕ) (rest : Bytes)
    → At buf off (replicate (suc n) 0 ++ rest)
    → Follows (Frame.padding (record { count = suc n })) rest
    → parse_frame buf off ≡ some (Frame.padding (record { count = suc n }), off + suc n)
unfolding parse_body parse_padding
parse_padding-At n buf off rest at next =
    parse_frame-bind buf off ∙ rw (first, ◌>>=◌) (rw (run, parse_padding) (ground arith))
  where
    first : read_varint buf off ≡ some (0, off + 1)
    first = unfold write_case in Parses-decode 0 (omega arith) buf off (replicate n 0 ++ rest) at

    run : skip_zeros (length buf - (off + 1)) buf (off + 1) 1 ≡ (1 + n, off + 1 + n)
    run =
        skip_zeros_lem n _ buf (off + 1) 1 rest
          (omega (
            arith,
            at.ends,
            length-append (replicate {A = ℕ} n 0) rest,
            length-replicate {A = ℕ} n 0,
          ))
          (At-skip buf off (0 ∷ []) _ at) next

-- A frame and what it stands for on the wire.
pub record Wire (f : Frame) (bs : Bytes) : Type 0 where
  pub emits : Emits (encode_frame f) bs
  pub nonempty : 0 < length bs
  pub parses :
      (buf : Bytes) (off : ℕ) (rest : Bytes)
      → At buf off (bs ++ rest)
      → Follows f rest
      → parse_frame buf off ≡ some (as_parsed f, off + length bs)

padding-Wire : (n : ℕ) → Wire (Frame.padding (record { count = suc n })) (replicate (suc n) 0)
unfolding encode_frame
padding-Wire n = record {
  emits = λ out. refl;
  nonempty = omega arith;
  parses = λ buf off rest at next.
      parse_padding-At n buf off rest at next
      ∙ ap (λ m. some (Frame.padding (record { count = suc n }), off + suc m))
          (sym (length-replicate {A = ℕ} n 0));
}

-- Nothing can be read from no bytes.
takes_bytes : (bs : Bytes) {f : Frame} → Parses (read_varint >>= parse_body) bs f → 0 < length bs
unfolding read_varint
takes_bytes [] hp = cc (hp [] 0 [] (At-whole [] (omega arith)))
takes_bytes (b ∷ bs) hp = omega arith

plain-Wire : (f : Frame) → is_padding f ≡ false → IsEncodable f → (bs : Bytes) × Wire f bs
plain-Wire f e h =
    let (bs, hw, hp) = Decodes-plain f e h in
    (
      bs,
      record {
        emits = hw;
        nonempty = takes_bytes bs hp;
        parses = λ buf off rest at next. parse_frame-bind buf off ∙ hp buf off rest at;
      },
    )

padded-Wire : (n : ℕ) → 0 < n → (bs : Bytes) × Wire (Frame.padding (record { count = n })) bs
padded-Wire zero h = absurd (omega arith)
padded-Wire (suc n) h = (replicate (suc n) 0, padding-Wire n)

pub wire : (f : Frame) → IsEncodable f → (bs : Bytes) × Wire f bs
wire (Frame.padding x) h = padded-Wire x.count h
wire f h = plain-Wire f refl h

-- `encode_frame` appends to the output, and `parse_frame`, started where the output ended, answers
-- the frame (as `as_parsed` says) and stops at its end. It holds for every encodable frame, with
-- any bytes before it and any behind that do not go on with its padding, fewer than 2 ^ 63 in all.
pub parse_frame-encode_frame :
    (f : Frame) (out rest : Bytes) {out' : Bytes}
    → IsEncodable f
    → encode_frame f out ≡ some out'
    → length (out' ++ rest) < 2 ^ 63
    → Follows f rest
    → parse_frame (out' ++ rest) (length out) ≡ some (as_parsed f, length out')
parse_frame-encode_frame f out rest {out'} h e room next =
    let (bs, w) = wire f h in
    let whole : out ++ bs ≡ out' = cc (w.emits out) in
    rw (← whole) (
      w.parses _ (length out) rest
        (At-behind out bs rest (
          omega (
            arith,
            ap (λ (xs : Bytes). length (xs ++ rest)) whole,
            length-append (out ++ bs) rest,
            length-append out bs,
          )))
        next
      ∙ ap (λ n. some (as_parsed f, n)) (sym (length-append out bs)))
