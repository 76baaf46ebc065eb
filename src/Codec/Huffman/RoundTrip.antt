-- ===== src/Codec/Huffman/RoundTrip.antt =====
-- `huffman_decode` takes what `huffman_encode` writes.
use libspaznet.Base.{
  ltb, ◌==◌, ltb→lt, ltb-ge, Bool-cases, Bytes, length, All, length-append, ℕ, zero, suc, ◌+◌, ◌-◌,
  ◌*◌, ◌/◌, ◌%◌, ◌^◌, ◌≤◌, ◌<◌, bit_or, ◌≡◌, refl, sym, ap, ◌∙◌, subst, inl, inr, true, some, List,
  [], ◌∷◌, ◌++◌, append-nil, append_assoc, arith,
}
use libspaznet.Base.Bits.{bit_or-shifted}
use libspaznet.Wire.Safe.{IsByte}
use libspaznet.Codec.Huffman.Bits.{
  bits, ones, all_bits, pow_pos, pow_sum, bits-add, bits-mod, bits-fields, bits-ones,
}
use libspaznet.Codec.Huffman.Paths.{
  walk, walk-append, take_all-walk, code_leads, code_sized, emitted, walk-leads, padding_quiet,
  walk-quiet,
}
use libspaznet.Codec.Huffman.{
  code_of, bits_of, count_bits, huffman_encoded_size, flush, encode_from, huffman_encode, Walk,
  start, tree, take_all, finish, along_ones, huffman_decode,
}
use native.Mathlib.Nat.{add-mul, mul_assoc, mul-add-mod_self_right, mul-lt-mul_of_pos_right}

length-bits : (n v : ℕ) → length (bits n v) ≡ n
length-bits zero v = refl
length-bits (suc n) v = ap suc (length-bits n v)

length-ones : (n : ℕ) → length (ones n) ≡ n
length-ones zero = refl
length-ones (suc n) = ap suc (length-ones n)

length-all_bits : (bs : Bytes) → length (all_bits bs) ≡ 8 * length bs
length-all_bits [] = refl
length-all_bits (b ∷ bs) =
    omega (arith, length-append (bits 8 b) (all_bits bs), length-bits 8 b, length-all_bits bs)

all_bits-append : (xs ys : Bytes) → all_bits (xs ++ ys) ≡ all_bits xs ++ all_bits ys
all_bits-append [] ys = refl
all_bits-append (x ∷ xs) ys =
    ap (λ (l : Bytes). bits 8 x ++ l) (all_bits-append xs ys)
    ∙ sym (append_assoc (bits 8 x) (all_bits xs) (all_bits ys))

-- The codes of a text, one after the other.
abbrev codes : Bytes → List ℕ
codes [] = []
codes (ch ∷ rest) = bits (bits_of ch) (code_of ch) ++ codes rest

length-codes : (s : Bytes) → length (codes s) ≡ count_bits s
unfolding count_bits
length-codes [] = refl
length-codes (ch ∷ rest) = omega (
  arith,
  length-append (bits (bits_of ch) (code_of ch)) (codes rest),
  length-bits (bits_of ch) (code_of ch),
  length-codes rest,
)

-- The bytes that `flush` writes are the upper ones of the bits held, and it leaves fewer than eight.
flush_lem :
    (fuel buf held : ℕ)
    → held < 8 * fuel + 8
    → (all_bits (flush fuel buf held).0 ++ bits (flush fuel buf held).1 buf ≡ bits held buf)
      × ((flush fuel buf held).1 < 8)
unfolding flush
flush_lem zero buf held h = (refl, omega arith)
flush_lem (suc fuel) buf held h = elim (Bool-cases (ltb held 8)) [
  | inl few ↦ rw few (refl, ltb→lt held 8 few)
  | inr many ↦
      let (same, few) = flush_lem fuel buf (held - 8) (ground arith) in
      let e : 8 + (held - 8) ≡ held = ground arith in
      let top = buf / 2 ^ (held - 8) % 256 in
      let below = flush fuel buf (held - 8) in
      let joined : (bits 8 top ++ all_bits below.0) ++ bits below.1 buf ≡ bits held buf =
        append_assoc (bits 8 top) (all_bits below.0) (bits below.1 buf)
        ∙ ap (λ (l : List ℕ). bits 8 top ++ l) same
        ∙ ap (λ (l : List ℕ). l ++ bits (held - 8) buf)
            (bits-mod 8 8 (buf / 2 ^ (held - 8)) (omega arith))
        ∙ (rw e at (sym (bits-add 8 (held - 8) buf))) in
      rw many (joined, few)
]

-- Shifting out of 64 bits keeps the bits that are held.
shift_out : (n buf : ℕ) → n < 64 → buf * 2 ^ n % 2 ^ 64 ≡ buf % 2 ^ (64 - n) * 2 ^ n
shift_out n buf h =
    let m = 64 - n in
    let e : m + n ≡ 64 = omega arith in
    let whole : 2 ^ m * 2 ^ n ≡ 2 ^ 64 = sym (pow_sum m n) ∙ ap (λ (k : ℕ). 2 ^ k) e in
    let split : buf * 2 ^ n ≡ buf / 2 ^ m * 2 ^ 64 + buf % 2 ^ m * 2 ^ n =
      ap (λ (k : ℕ). k * 2 ^ n) (parts m)
      ∙ add-mul (buf / 2 ^ m * 2 ^ m) (buf % 2 ^ m) (2 ^ n)
      ∙ ap (λ (k : ℕ). k + buf % 2 ^ m * 2 ^ n)
          (mul_assoc (buf / 2 ^ m) (2 ^ m) (2 ^ n) ∙ ap (λ (k : ℕ). buf / 2 ^ m * k) whole) in
    let below : buf % 2 ^ m < 2 ^ m = omega (arith, pow_pos m) in
    let fits : buf % 2 ^ m * 2 ^ n < 2 ^ 64 =
      subst (λ (k : ℕ). buf % 2 ^ m * 2 ^ n < k) whole
        (mul-lt-mul_of_pos_right below (pow_pos n)) in
    rw (split, mul-add-mod_self_right (buf / 2 ^ m) (2 ^ 64) (buf % 2 ^ m * 2 ^ n)) (omega arith)
  where
    parts : (m : ℕ) → buf ≡ buf / 2 ^ m * 2 ^ m + buf % 2 ^ m
    parts m = omega arith

push_bits :
    (held n buf code : ℕ)
    → held + n ≤ 64
    → code < 2 ^ n
    → n < 64
    → bits (held + n) (bit_or (buf * 2 ^ n % 2 ^ 64) code) ≡ bits held buf ++ bits n code
push_bits held n buf code room small h =
    rw (shift_out n buf h, bit_or-shifted n (buf % 2 ^ (64 - n)) code small)
      (bits-fields held n (buf % 2 ^ (64 - n)) code small
        ∙ ap (λ (l : List ℕ). l ++ bits n code) (bits-mod held (64 - n) buf (omega arith)))

-- What the encoder writes: the bits held, the codes, and fewer than eight bits 1.
encode_from_lem :
    (s : Bytes) (buf held : ℕ)
    → All IsByte s
    → held < 8
    → (pad : ℕ) × (pad < 8)
      × (all_bits (encode_from s buf held) ≡ bits held buf ++ (codes s ++ ones pad))
unfolding encode_from
encode_from_lem [] buf held bs h = elim (Bool-cases (held == 0)) [
  | inl empty ↦ (0, omega arith, rw empty (let e : held ≡ 0 = ground arith in rw e refl))
  | inr some_bits ↦
      let e : held + (8 - held) ≡ 8 = omega arith in
      (
        8 - held,
        ground arith,
        rw some_bits (
            append-nil _
            ∙ bits-mod 8 8 _ (omega arith)
            ∙ (rw e at (
                push_bits held (8 - held) buf (2 ^ (8 - held) - 1) (omega arith)
                  (omega (arith, pow_pos (8 - held))) (ground arith)))
            ∙ ap (λ (l : List ℕ). bits held buf ++ l) (bits-ones (8 - held))),
      )
]
encode_from_lem (ch ∷ rest) buf held (b, bs) h =
    let n = bits_of ch in
    let (five, thirty, small) = code_sized ch b in
    let buf' = bit_or (buf * 2 ^ n % 2 ^ 64) (code_of ch) in
    let (same, few) = flush_lem 5 buf' (held + n) (omega arith) in
    let (pad, p, ih) = encode_from_lem rest buf' (flush 5 buf' (held + n)).1 bs few in
    (
      pad,
      p,
      all_bits-append (flush 5 buf' (held + n)).0
            (encode_from rest buf' (flush 5 buf' (held + n)).1)
          ∙ ap (λ (l : List ℕ). all_bits (flush 5 buf' (held + n)).0 ++ l) ih
          ∙ sym (append_assoc (all_bits (flush 5 buf' (held + n)).0) _ _)
          ∙ ap (λ (l : List ℕ). l ++ (codes rest ++ ones pad))
              (same ∙ push_bits held n buf (code_of ch) (omega arith) small (omega arith))
          ∙ append_assoc (bits held buf) (bits n (code_of ch)) (codes rest ++ ones pad)
          ∙ ap (λ (l : List ℕ). bits held buf ++ l)
              (sym (append_assoc (bits n (code_of ch)) (codes rest) (ones pad))),
    )

-- The walk over the codes of a text, from the root.
walk-codes :
    (s : Bytes) (w : Walk)
    → All IsByte s
    → w.node ≡ 0
    → w.pad_start_node ≡ 0
    → w.pad_start_bit ≡ w.bit_count
    → walk tree (codes s) w
      ≡ some (record {
        node = 0;
        bit_count = w.bit_count + length (codes s);
        pad_start_node = 0;
        pad_start_bit = w.bit_count + length (codes s);
        out = w.out ++ s;
      })
walk-codes [] w bs at_root at_start at_bit =
    let e : w.bit_count + 0 ≡ w.bit_count = omega arith in
    rw (e, append-nil w.out)
      (ap some (
        ap (λ (k : ℕ). record w { node = k }) at_root
        ∙ ap (λ (k : ℕ). record w { node = 0; pad_start_node = k }) at_start
        ∙ ap (λ (k : ℕ). record w { node = 0; pad_start_node = 0; pad_start_bit = k }) at_bit))
walk-codes (ch ∷ rest) w (b, bs) at_root at_start at_bit =
    let code = bits (bits_of ch) (code_of ch) in
    let first : walk tree code w ≡ some (emitted w (length code) ch) =
      walk-leads tree code w ch b (rw at_root (code_leads ch b)) in
    let e : w.bit_count + length code + length (codes rest)
        ≡ w.bit_count + length (code ++ codes rest) =
      omega (arith, length-append code (codes rest)) in
    walk-append tree code (codes rest) w (emitted w (length code) ch) first
    ∙ walk-codes rest (emitted w (length code) ch) bs refl refl refl
    ∙ rw (e, append_assoc w.out (ch ∷ []) rest) refl

finish-padded :
    (w : Walk) (n end : ℕ)
    → n < 8
    → w.bit_count ≡ w.pad_start_bit + n
    → w.node ≡ end
    → along_ones tree n w.pad_start_node ≡ some end
    → finish tree w ≡ some w.out
unfolding finish
finish-padded w n end h held there along = elim (Bool-cases (w.node == 0)) [
  | inl root ↦ rw root refl
  | inr inside ↦
      let e : w.bit_count - w.pad_start_bit ≡ n = omega arith in
      rw (inside, e, ltb-ge 7 n (omega arith), along, finish)
        (let same : (end == w.node) ≡ true = ground arith in rw same refl)
]

-- `huffman_decode` answers the text that `huffman_encode` was given, for every text of bytes: each
-- code of the table is found again in the tree, and the bits 1 that fill up the last byte are taken
-- for padding.
pub huffman_decode-huffman_encode :
    (s : Bytes) → All IsByte s → huffman_decode (huffman_encode s) ≡ some s
unfolding huffman_decode huffman_encode
huffman_decode-huffman_encode s bs =
    let (pad, p, laid) = encode_from_lem s 0 0 bs (omega arith) in
    let n = length (codes s) in
    let w : Walk = record {
      node = 0;
      bit_count = n;
      pad_start_node = 0;
      pad_start_bit = n;
      out = s;
    } in
    let (end, there, along) = walk-quiet tree pad w (padding_quiet pad p) in
    let e : 0 + n ≡ n = omega arith in
    let first : walk tree (codes s) start ≡ some w =
      rw e at (walk-codes s start bs refl refl refl) in
    let all : take_all tree (encode_from s 0 0) start
        ≡ some (record w { node = end; bit_count = n + pad }) =
      take_all-walk tree (encode_from s 0 0) start
      ∙ ap (λ (l : List ℕ). walk tree l start) laid
      ∙ walk-append tree (codes s) (ones pad) start w first
      ∙ there in
    rw (all, huffman_decode)
      (finish-padded (record w { node = end; bit_count = n + pad }) pad end p refl refl along)

-- `huffman_encode` appends exactly as many bytes as `huffman_encoded_size` reserves for it, for
-- every text of bytes.
pub length-huffman_encode :
    (s : Bytes) → All IsByte s → length (huffman_encode s) ≡ huffman_encoded_size s
unfolding huffman_encode huffman_encoded_size
length-huffman_encode s bs =
    let (pad, p, laid) = encode_from_lem s 0 0 bs (omega arith) in
    omega (
      arith,
      length-all_bits (encode_from s 0 0),
      ap (λ (l : List ℕ). length l) laid,
      length-append (codes s) (ones pad),
      length-ones pad,
      length-codes s,
      p,
    )
