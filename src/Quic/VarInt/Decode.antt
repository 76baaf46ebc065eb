-- ===== src/Quic/VarInt/Decode.antt =====
-- What `VarInt::decode` answers on any buffer of bytes.
use libspaznet.Base.{
  ltb-ge, leb-gt, Bytes, length, drop, length-append, head_of_drop, tail_of_drop, ℕ, suc, ◌+◌, ◌-◌,
  ◌*◌, ◌/◌, ◌%◌, ◌^◌, ◌<◌, ◌≡◌, refl, ap, ◌∙◌, some, [], ◌∷◌, ◌++◌, arith,
}
use libspaznet.Base.Bits.{bit_or-shifted, bit_and-mask}
use libspaznet.Wire.RoundTrip.{At}
use libspaznet.Quic.VarInt.{shift_in, decode_loop, length_of, decode}

-- The bytes of a number, read from the front after `result`.
unfoldable pub big_endian : ℕ → Bytes → ℕ
big_endian result [] = result
big_endian result (b ∷ bs) = big_endian (shift_in result b) bs

pub decode_loop-big_endian :
    (bs rest buf : Bytes) (i offset result : ℕ)
    → drop (offset + i) buf ≡ bs ++ rest
    → decode_loop (length bs) i buf offset result ≡ big_endian result bs
unfolding decode_loop big_endian
decode_loop-big_endian [] rest buf i offset result h = refl
decode_loop-big_endian (b ∷ bs) rest buf i offset result h =
    rw (head_of_drop buf (offset + i) b 0 (bs ++ rest) h, decode_loop)
      (decode_loop-big_endian bs rest buf (i + 1) offset (shift_in result b) next)
  where
    next : drop (offset + (i + 1)) buf ≡ bs ++ rest
    next =
        let e : offset + (i + 1) ≡ offset + i + 1 = omega arith in
        rw e (tail_of_drop buf (offset + i) b (bs ++ rest) h)

-- A first byte whose top two bits announce as many bytes as follow.
pub decode-At :
    (buf : Bytes) (off first : ℕ) (bs rest : Bytes)
    → At buf off (first ∷ (bs ++ rest))
    → length_of first ≡ suc (length bs)
    → decode buf off ≡ some (big_endian (first % 64) bs, off + suc (length bs))
unfolding decode
decode-At buf off first bs rest h size =
    let room : off + suc (length bs) < 2 ^ 64 =
      omega (arith, h.sized, h.ends, length-append bs rest) in
    let small : (off + suc (length bs)) % 2 ^ 64 ≡ off + suc (length bs) = omega arith in
    let fits =
      ltb-ge (length buf) (off + suc (length bs)) (omega (arith, h.ends, length-append bs rest)) in
    let less : suc (length bs) - 1 ≡ length bs = omega arith in
    rw
      (
        leb-gt (length buf) off (omega (arith, h.ends)),
        head_of_drop buf off first 0 _ h.reads,
        size,
        small,
        fits,
        less,
        bit_and-mask 6 first,
      )
      (ap (λ r. some (r, off + suc (length bs)))
        (decode_loop-big_endian bs rest buf 1 off (first % 64)
          (tail_of_drop buf off first (bs ++ rest) h.reads)))

-- One more byte, where the digits before it are those of `w`.
big_endian_next :
    (u w : ℕ) (bs : Bytes)
    → u ≡ w / 256
    → w < 2 ^ 64
    → big_endian u (w % 256 ∷ bs) ≡ big_endian w bs
unfolding big_endian
big_endian_next u w bs e h = ap (λ r. big_endian r bs) joined
  where
    fits : u * 2 ^ 8 % 2 ^ 64 ≡ u * 2 ^ 8
    fits = omega arith

    joined : shift_in u (w % 256) ≡ w
    joined = rw (fits, bit_or-shifted 8 u (w % 256) (omega arith)) (omega arith)

pub big_endian_one : (v : ℕ) → v < 2 ^ 64 → big_endian (v / 2 ^ 8) (v % 256 ∷ []) ≡ v
big_endian_one v h = big_endian_next _ v [] refl h ∙ unfold big_endian in refl

pub big_endian_three :
    (v : ℕ)
    → v < 2 ^ 64
    → big_endian (v / 2 ^ 24) (v / 2 ^ 16 % 256 ∷ v / 2 ^ 8 % 256 ∷ v % 256 ∷ []) ≡ v
big_endian_three v h =
    big_endian_next _ (v / 2 ^ 16) _ (omega arith) (omega arith)
    ∙ big_endian_next _ (v / 2 ^ 8) _ (omega arith) (omega arith)
    ∙ big_endian_one v h

pub big_endian_seven :
    (v : ℕ)
    → v < 2 ^ 64
    → big_endian (v / 2 ^ 56) (
        v / 2 ^ 48 % 256
        ∷ v / 2 ^ 40 % 256
        ∷ v / 2 ^ 32 % 256
        ∷ v / 2 ^ 24 % 256
        ∷ v / 2 ^ 16 % 256
        ∷ v / 2 ^ 8 % 256
        ∷ v % 256
        ∷ [])
      ≡ v
big_endian_seven v h =
    big_endian_next _ (v / 2 ^ 48) _ (omega arith) (omega arith)
    ∙ big_endian_next _ (v / 2 ^ 40) _ (omega arith) (omega arith)
    ∙ big_endian_next _ (v / 2 ^ 32) _ (omega arith) (omega arith)
    ∙ big_endian_next _ (v / 2 ^ 24) _ (omega arith) (omega arith)
    ∙ big_endian_three v h
