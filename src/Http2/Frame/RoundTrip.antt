-- ===== src/Http2/Frame/RoundTrip.antt =====
-- `parse` takes what `serialize` writes, and what it takes is a frame.
use libspaznet.Base.{
  ltb-ge, Bytes, length, get_or, take, drop, length-append, length-take, length-drop, take-append,
  drop-length_append, drop-add, get_or-drop, ℕ, ◌+◌, ◌%◌, ◌^◌, ◌≤◌, ◌<◌, bit_and, ◌≡◌, refl, sym,
  ap, ◌∙◌, subst, Option, some, ◌∷◌, ◌++◌, arith,
}
use libspaznet.Base.Bits.{bit_and-mask}
use libspaznet.Utils.Binary.{
  encode_uint24_be, encode_uint32_be, decode_uint24_be, decode_uint32_be, decode-encode_uint24_be,
  decode-encode_uint32_be,
}
use libspaznet.Http2.Frame.{Frame, serialize, parse}

-- What the format can say: at most 16384 bytes, counted by `size`, on a stream of 31 bits.
pub record IsFrame (f : Frame) : Type 0 where
  pub counted : f.size ≡ length f.payload
  pub sized : f.size ≤ 16384
  pub stream : f.stream_id < 2 ^ 31

low31 : (n : ℕ) → bit_and n 0x7FFFFFFF ≡ n % 2 ^ 31
low31 n = bit_and-mask 31 n

low31-small : (n : ℕ) → n < 2 ^ 31 → bit_and n 0x7FFFFFFF ≡ n
low31-small n h = low31 n ∙ omega arith

-- A frame from its bytes.
unfoldable frame_of : Bytes → ℕ → Frame
frame_of bs size = record {
  size = size;
  frame_type = get_or bs 3 0;
  flags = get_or bs 4 0;
  stream_id = bit_and (decode_uint32_be (drop 5 bs)) 0x7FFFFFFF;
  payload = take size (drop 9 bs);
}

parse-frame_of :
    (bytes : Bytes) (offset size : ℕ)
    → decode_uint24_be (drop offset bytes) ≡ size
    → size ≤ 16384
    → offset + 9 + size ≤ length bytes
    → parse bytes offset ≡ (some (frame_of (drop offset bytes) size), offset + 9 + size)
unfolding parse frame_of
parse-frame_of bytes offset size e small room =
    rw
      (
        e,
        ltb-ge (length bytes) (offset + 9) (omega arith),
        ltb-ge 16384 size small,
        ltb-ge (length bytes) (offset + 9 + size) room,
        ← get_or-drop offset 3 bytes 0,
        ← get_or-drop offset 4 bytes 0,
        drop-add offset 5 bytes,
        drop-add offset 9 bytes,
      )
      refl

frame_of-serialize :
    (f : Frame) (rest : Bytes) → IsFrame f → frame_of (serialize f ++ rest) f.size ≡ f
unfolding frame_of serialize encode_uint24_be encode_uint32_be
frame_of-serialize f rest h =
    let sid : bit_and
          (decode_uint32_be
            (encode_uint32_be (bit_and f.stream_id 0x7FFFFFFF) ++ (f.payload ++ rest)))
          0x7FFFFFFF
        ≡ f.stream_id =
      rw
        (
          low31-small f.stream_id h.stream,
          decode-encode_uint32_be f.stream_id (f.payload ++ rest) (omega (arith, h.stream)),
        )
        (low31-small f.stream_id h.stream) in
    let pay : take f.size (f.payload ++ rest) ≡ f.payload =
      rw h.counted (take-append f.payload rest) in
    rw (sid, pay) refl

serialize-size :
    (f : Frame) (rest : Bytes) → f.size < 2 ^ 24 → decode_uint24_be (serialize f ++ rest) ≡ f.size
unfolding serialize encode_uint24_be
serialize-size f rest h =
    decode-encode_uint24_be f.size
      (f.frame_type
        ∷ f.flags
        ∷ ((encode_uint32_be (bit_and f.stream_id 0x7FFFFFFF) ++ f.payload) ++ rest))
      h

pub length-serialize : (f : Frame) → length (serialize f) ≡ 9 + length f.payload
unfolding serialize encode_uint24_be encode_uint32_be
length-serialize f = omega arith

-- `parse`, started where the bytes of `serialize` stand among others, answers the frame and moves
-- the offset to its end, for a payload of at most 16384 bytes that `length` counts and a stream
-- below 2 ^ 31.
pub parse-serialize :
    (f : Frame) (before rest : Bytes)
    → IsFrame f
    → parse (before ++ (serialize f ++ rest)) (length before)
      ≡ (some f, length before + length (serialize f))
parse-serialize f before rest h =
    let whole = before ++ (serialize f ++ rest) in
    let here : drop (length before) whole ≡ serialize f ++ rest =
      drop-length_append before (serialize f ++ rest) in
    parse-frame_of whole (length before) f.size
      (rw here (serialize-size f rest (omega (arith, h.sized)))) h.sized
      (omega (
        arith,
        h.counted,
        length-serialize f,
        length-append before (serialize f ++ rest),
        length-append (serialize f) rest,
      ))
    ∙ rw (here, frame_of-serialize f rest h)
        (ap (λ n. (some f, n)) (omega (arith, length-serialize f, h.counted)))

frame_of-IsFrame :
    (bs : Bytes) (size : ℕ) → 9 + size ≤ length bs → size ≤ 16384 → IsFrame (frame_of bs size)
unfolding frame_of
frame_of-IsFrame bs size room small = record {
  counted = omega (arith, length-take size (drop 9 bs), length-drop 9 bs);
  sized = small;
  stream = rw (low31 (decode_uint32_be (drop 5 bs))) (omega arith);
}

parse-some :
    (bytes : Bytes) (offset offset' size : ℕ) (f : Frame)
    → decode_uint24_be (drop offset bytes) ≡ size
    → parse bytes offset ≡ (some f, offset')
    → (size ≤ 16384) × (offset + 9 + size ≤ length bytes)
unfolding parse
parse-some bytes offset offset' size f e p = ground arith

-- A frame that `parse` answers, of whatever bytes, is one that `serialize` can write: its payload
-- has as many bytes as its length says, 16384 at most, and its stream has 31 bits; and the offset
-- has moved by its size on the wire, to a place inside the bytes.
pub parse-IsFrame :
    (bytes : Bytes) (offset offset' : ℕ) (f : Frame)
    → parse bytes offset ≡ (some f, offset')
    → IsFrame f × (offset' ≡ offset + length (serialize f)) × (offset' ≤ length bytes)
unfolding frame_of
parse-IsFrame bytes offset offset' f e =
    let size = decode_uint24_be (drop offset bytes) in
    let (small, room) : (size ≤ 16384) × (offset + 9 + size ≤ length bytes) =
      parse-some bytes offset offset' size f refl e in
    let is : Path (Option Frame × ℕ) (some (frame_of (drop offset bytes) size), offset + 9 + size)
        (some f, offset') =
      sym (parse-frame_of bytes offset size refl small room) ∙ e in
    let same : frame_of (drop offset bytes) size ≡ f = cc is in
    let end : offset + 9 + size ≡ offset' = cc is in
    let valid : IsFrame f =
      subst IsFrame same (
        frame_of-IsFrame (drop offset bytes) size (omega (arith, length-drop offset bytes))
          small) in
    let sized : size ≡ f.size = ap (λ (g : Frame). g.size) same in
    (valid, omega (arith, length-serialize f, valid.counted), omega arith)
