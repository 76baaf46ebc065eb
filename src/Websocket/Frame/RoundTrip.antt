-- ===== src/Websocket/Frame/RoundTrip.antt =====
-- `parse` takes what `serialize` writes.
use libspaznet.Base.{
  ltb, if◌then◌else◌, ltb-ge, Bool-cases, Bytes, length, get_or, take, drop, length-append,
  take-append, drop-length_append, drop-add, ℕ, suc, ◌+◌, ◌*◌, ◌/◌, ◌%◌, ◌^◌, ◌≤◌, ◌<◌, bit_and,
  bit_or, ◌≡◌, refl, sym, ap, ◌∙◌, subst, inl, inr, Bool, true, false, not, ◌&&◌, ◌||◌, ◌∷◌, ◌++◌,
  append_assoc, arith,
}
use libspaznet.Base.Bits.{bit_and-shifted}
use libspaznet.Utils.Binary.{or16, decode_uint32_be, encode_uint32_be, decode-encode_uint32_be}
use libspaznet.Websocket.Frame.{
  k_max_payload_bytes, Frame, is_known_opcode, is_control_opcode, has, big_endian, length_bytes,
  shift_in, read_length, answers, parse, read_payload, mask_from, serialize, byte1,
}
use libspaznet.Websocket.Frame.Masking.{
  shift_in-big_endian, length-big_endian, second_byte, Says, length-mask_from, byte1-Says,
  mask_from-twice,
}

-- A frame that may be sent: of a kind that is known, without reserved bits, a control frame in one
-- piece and short; with its true length, up to the limit; and with a key where it is masked.
pub record IsFrame (f : Frame) : Type 0 where
  pub known : is_known_opcode f.opcode ≡ true
  pub no_rsv1 : f.rsv1 ≡ false
  pub no_rsv2 : f.rsv2 ≡ false
  pub no_rsv3 : f.rsv3 ≡ false
  pub control : (is_control_opcode f.opcode && (not f.fin || ltb 125 f.payload_length)) ≡ false
  pub counted : f.payload_length ≡ length f.payload
  pub sized : f.payload_length ≤ k_max_payload_bytes
  pub key : f.masking_key < 2 ^ 32
  pub no_key : f.masked ≡ false → f.masking_key ≡ 0

-- The length and the mask bit, read from bytes of which `tail` is what follows them.
pub record Measures (bytes tail : Bytes) (m : Bool) (n : ℕ) : Type 0 where
  pub header : ℕ
  pub read : read_length bytes ≡ answers (n, header)
  pub mask : has (get_or bytes 1 0) 0x80 ≡ m
  pub behind : drop header bytes ≡ tail
  pub long : length bytes ≡ header + length tail
  pub two : 2 ≤ header

pub read_length-Measures :
    (b : ℕ) (m : Bool) (n : ℕ) (tail : Bytes)
    → n ≤ k_max_payload_bytes
    → Measures (b ∷ (length_bytes m n ++ tail)) tail m n
unfolding read_length length_bytes
read_length-Measures b m n tail small = elim (Bool-cases (ltb n 126)) [
  | inl short ↦
      let (code, mask) = second_byte m n (ground (arith, short)) in
      rw short (record {
        header = 2;
        mask = mask;
        behind = refl;
        long = omega arith;
        two = omega arith;
        read = rw (code, short) refl;
      })
  | inr not_short ↦ elim (Bool-cases (ltb n 65536)) [
    | inl middle ↦
        let (code, mask) = second_byte m 126 (omega arith) in
        let e : bit_or (n / 2 ^ 8 % 256 * 2 ^ 8) (n % 256) ≡ n =
          or16 (n / 2 ^ 8 % 256) (n % 256) (omega arith) ∙ ground (arith, middle) in
        rw (not_short, middle)
          (record {
            header = 4;
            mask = mask;
            behind = refl;
            long = omega arith;
            two = omega arith;
            read =
                rw (code, ltb-ge (length (b ∷ 0 ∷ 0 ∷ 0 ∷ tail)) 4 (omega arith), e, not_short)
                  refl;
          })
    | inr long_form ↦
        let (code, mask) = second_byte m 127 (omega arith) in
        let eight : Bytes = big_endian 8 n in
        let size : length eight ≡ 8 = length-big_endian 8 n in
        let start : n / 2 ^ (8 * 8) ≡ 0 = omega (arith, small) in
        let value : shift_in 0 eight ≡ n =
          rw start at (shift_in-big_endian 8 n (omega (arith, small))) in
        let first : take 8 (eight ++ tail) ≡ eight = rw size at (take-append eight tail) in
        let rest : drop 8 (eight ++ tail) ≡ tail = rw size at (drop-length_append eight tail) in
        let low : has n (2 ^ 63) ≡ false = clear n small in
        rw (not_short, long_form)
          (record {
            header = 10;
            mask = mask;
            behind = rest;
            long = omega (arith, length-append eight tail, size);
            two = omega arith;
            read =
                rw
                  (
                    code,
                    ltb-ge (suc (suc (length (eight ++ tail)))) 10
                        (omega (arith, length-append eight tail, size)),
                    first,
                    value,
                    long_form,
                    low,
                  )
                  refl;
          })
  ]
]
  where
    clear : (n : ℕ) → n ≤ k_max_payload_bytes → has n (2 ^ 63) ≡ false
    clear n small = let q : n / 2 ^ 63 ≡ 0 = omega arith in rw (bit_and-shifted 63 n 1, q) refl

-- The key and the payload, read from behind a header of `h` bytes.
record Carries (bytes : Bytes) (h : ℕ) (m : Bool) (n key : ℕ) (payload : Bytes) : Type 0 where
  key_fits : (m && ltb (length bytes) (h + 4)) ≡ false
  fits : ltb (length bytes) ((if m then h + 4 else h) + n) ≡ false
  key_is : (if m then decode_uint32_be (drop h bytes) else 0) ≡ key
  payload_is :
      (if m
        then mask_from
            (decode_uint32_be (drop h bytes))
            0
            (take n (drop (if m then h + 4 else h) bytes))
        else take n (drop (if m then h + 4 else h) bytes))
      ≡ payload

read-Carries :
    (bytes rest : Bytes) (h : ℕ) (m : Bool) (key : ℕ) (payload : Bytes)
    → key < 2 ^ 32
    → (m ≡ false → key ≡ 0)
    → drop h bytes
      ≡ (if m then encode_uint32_be key ++ mask_from key 0 payload else payload) ++ rest
    → length bytes
      ≡ h
        + length ((if m then encode_uint32_be key ++ mask_from key 0 payload else payload) ++ rest)
    → Carries bytes h m (length payload) key payload
unfolding encode_uint32_be
read-Carries bytes rest h true key payload small no_key behind long =
    let hidden = mask_from key 0 payload in
    let sized : length hidden ≡ length payload = length-mask_from key 0 payload in
    let k : decode_uint32_be (drop h bytes) ≡ key =
      rw behind (decode-encode_uint32_be key (hidden ++ rest) small) in
    let p : take (length payload) (drop (h + 4) bytes) ≡ hidden =
      rw (drop-add h 4 bytes, behind) (rw sized at (take-append hidden rest)) in
    record {
      key_fits = ltb-ge (length bytes) (h + 4) (omega (arith, long));
      fits =
          ltb-ge (length bytes) (h + 4 + length payload)
            (omega (arith, long, length-append hidden rest, sized));
      key_is = k;
      payload_is = rw (k, p) (mask_from-twice key 0 payload);
    }
read-Carries bytes rest h false key payload small no_key behind long = record {
  key_fits = refl;
  fits =
      ltb-ge (length bytes) (h + length payload) (omega (arith, long, length-append payload rest));
  key_is = sym (no_key refl);
  payload_is = rw behind (take-append payload rest);
}

read_payload-frame :
    (bytes : Bytes) (f : Frame) (h : ℕ)
    → IsFrame f
    → Says (get_or bytes 0 0) f
    → has (get_or bytes 1 0) 0x80 ≡ f.masked
    → Carries bytes h f.masked f.payload_length f.masking_key f.payload
    → read_payload bytes f.payload_length h ≡ answers f
unfolding read_payload
read_payload-frame bytes f h is says mask c =
    rw
      (
        says.fin,
        says.rsv1,
        says.rsv2,
        says.rsv3,
        says.opcode,
        mask,
        is.control,
        ltb-ge k_max_payload_bytes f.payload_length is.sized,
        c.key_fits,
        c.fits,
        c.key_is,
        c.payload_is,
      )
      refl

parse-frame :
    (bytes tail : Bytes) (f : Frame)
    → IsFrame f
    → Says (get_or bytes 0 0) f
    → (m : Measures bytes tail f.masked f.payload_length)
    → Carries bytes m.header f.masked f.payload_length f.masking_key f.payload
    → parse bytes ≡ answers f
unfolding parse
parse-frame bytes tail f is says m c =
    let opcode : is_known_opcode (bit_and (get_or bytes 0 0) 0x0F) ≡ true =
      rw says.opcode is.known in
    rw
      (
        ltb-ge (length bytes) 2 (omega (arith, m.long, m.two)),
        opcode,
        says.rsv1 ∙ is.no_rsv1,
        says.rsv2 ∙ is.no_rsv2,
        says.rsv3 ∙ is.no_rsv3,
        m.read,
      )
      (read_payload-frame bytes f m.header is says m.mask c)

-- `parse` answers the frame that `serialize` wrote, whatever follows it in the buffer: masked or not,
-- with each of the three forms of the length. The frame is of a kind that is known, has no reserved
-- bits, is short and in one piece if it is a control frame, says its true length, 16 MiB at most, and
-- has a key of 32 bits, which is 0 where it is not masked.
pub parse-serialize_frame :
    (f : Frame) (rest : Bytes) → IsFrame f → parse (serialize f ++ rest) ≡ answers f
unfolding serialize
parse-serialize_frame f rest is =
    let body =
      if f.masked
      then encode_uint32_be f.masking_key ++ mask_from f.masking_key 0 f.payload
      else f.payload in
    let head = length_bytes f.masked f.payload_length in
    let bytes = byte1 f ∷ (head ++ (body ++ rest)) in
    let says = byte1-Says f is.known is.no_rsv1 is.no_rsv2 is.no_rsv3 in
    let m = read_length-Measures (byte1 f) f.masked f.payload_length (body ++ rest) is.sized in
    let c =
      read-Carries bytes rest m.header f.masked f.masking_key f.payload is.key is.no_key m.behind
        m.long in
    let c' =
      subst (λ (n : ℕ). Carries bytes m.header f.masked n f.masking_key f.payload) (sym is.counted)
        c in
    ap (λ (bs : Bytes). parse (byte1 f ∷ bs)) (append_assoc head body rest)
    ∙ parse-frame bytes (body ++ rest) f is says m c'
