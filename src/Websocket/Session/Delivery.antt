-- ===== src/Websocket/Session/Delivery.antt =====
-- A frame that a client writes reaches the handler.
use libspaznet.Base.{
  if◌then◌else◌, ltb-ge, if_true, Bytes, length, get_or, drop, drop-add, ℕ, ◌+◌, ◌≤◌, ◌<◌, bit_and,
  ◌≡◌, refl, ap, ◌∙◌, true, some, ◌++◌, arith,
}
use libspaznet.Base.Bits.{bit_and-mask}
use libspaznet.Utils.Binary.{encode_uint32_be, decode_uint32_be, decode-encode_uint32_be}
use libspaznet.Websocket.Frame.{
  k_max_payload_bytes, Frame, is_known_opcode, byte1, mask_from, serialize, read_length, answers,
}
use libspaznet.Websocket.Frame.Masking.{byte1-Says}
use libspaznet.Websocket.Frame.RoundTrip.{IsFrame, read_length-Measures}
use libspaznet.Websocket.Header.{
  base_size, length_code, is_masked, header_size, payload_length, judge, read_header, accepts,
}

length_code-small : (bytes : Bytes) → length_code bytes < 128
length_code-small bytes = rw (bit_and-mask 7 (get_or bytes 1 0)) (omega arith)

-- The two readers of a length agree.
read_length-agrees :
    (bytes : Bytes) (n h : ℕ)
    → read_length bytes ≡ answers (n, h)
    → (base_size (length_code bytes) ≡ h) × (payload_length h bytes ≡ some n)
unfolding read_length base_size payload_length
read_length-agrees bytes n h e = ground (arith, length_code-small bytes)

-- What reading a frame from the front of a buffer comes to.
pub record Reads (bytes : Bytes) (f : Frame) : Type 0 where
  pub long : 2 ≤ length bytes
  pub room : header_size bytes ≤ length bytes
  pub verdict : read_header bytes ≡ accepts f.fin f.opcode f.masking_key f.payload_length
  pub behind : drop (header_size bytes) bytes ≡ mask_from f.masking_key 0 f.payload

judge-accepts :
    (f : Frame)
    → IsFrame f
    → judge f.fin f.opcode f.masking_key (some f.payload_length)
      ≡ accepts f.fin f.opcode f.masking_key f.payload_length
unfolding judge
judge-accepts f is = rw (is.control, ltb-ge k_max_payload_bytes f.payload_length is.sized) refl

pub serialize-Reads : (f : Frame) → IsFrame f → f.masked ≡ true → Reads (serialize f) f
unfolding serialize header_size read_header encode_uint32_be
serialize-Reads f is masked =
    let hidden = mask_from f.masking_key 0 f.payload in
    let body = if f.masked then encode_uint32_be f.masking_key ++ hidden else f.payload in
    let body_is : body ≡ encode_uint32_be f.masking_key ++ hidden =
      if_true (λ (bs : Bytes). bs ≡ encode_uint32_be f.masking_key ++ hidden) f.masked _ _ masked
        refl in
    let bytes = serialize f in
    let m = read_length-Measures (byte1 f) f.masked f.payload_length body is.sized in
    let says = byte1-Says f is.known is.no_rsv1 is.no_rsv2 is.no_rsv3 in
    let (base_is, length_is) = read_length-agrees bytes f.payload_length m.header m.read in
    let has_mask : is_masked bytes ≡ true = m.mask ∙ masked in
    let tail : drop m.header bytes ≡ encode_uint32_be f.masking_key ++ hidden =
      m.behind ∙ body_is in
    let size : header_size bytes ≡ m.header + 4 = rw (base_is, has_mask) refl in
    let count : length bytes ≡ m.header + length (encode_uint32_be f.masking_key ++ hidden) =
      m.long ∙ ap (λ (bs : Bytes). m.header + length bs) body_is in
    let known : is_known_opcode (bit_and (get_or bytes 0 0) 0x0F) ≡ true =
      rw says.opcode is.known in
    let key : decode_uint32_be (drop m.header bytes) ≡ f.masking_key =
      rw tail (decode-encode_uint32_be f.masking_key hidden is.key) in
    record {
      long = omega (arith, m.long, m.two);
      room = omega (arith, size, count);
      verdict =
          rw
            (
              says.rsv1 ∙ is.no_rsv1,
              says.rsv2 ∙ is.no_rsv2,
              says.rsv3 ∙ is.no_rsv3,
              has_mask,
              known,
              says.fin,
              says.opcode,
              base_is,
              length_is,
              key,
            )
            (judge-accepts f is);
      behind = rw size (drop-add m.header 4 bytes ∙ ap (λ (bs : Bytes). drop 4 bs) tail);
    }
