-- ===== src/Wire/RoundTrip.antt =====
-- What a writer appends, and that a reader standing before those bytes takes exactly them.
use libspaznet.Base.{
  ltb-ge, leb-gt, Bytes, length, get_or, drop, All, length-append, take-append, drop-length_append,
  drop-add, get_or-drop, ℕ, ◌+◌, ◌%◌, ◌^◌, ◌<◌, ◌≡◌, refl, sym, ap, ◌∙◌, some, List, [], ◌∷◌, ◌++◌,
  append-nil, append_assoc, arith,
}
use libspaznet.Wire.Reader.{Reader, return, ◌>>=◌, read_bytes, read_byte, read_many}
use libspaznet.Wire.Writer.{Writer, done, ◌>>◌ as seq, insert, for_each}

-- The offset `off` of `buf` has the bytes `xs` before it. A vector has fewer than 2 ^ 63 bytes.
pub record At (buf : Bytes) (off : ℕ) (xs : Bytes) : Type 0 where
  pub sized : length buf < 2 ^ 63
  pub ends : length buf ≡ off + length xs
  pub reads : drop off buf ≡ xs

pub At-skip :
    (buf : Bytes) (off : ℕ) (xs ys : Bytes) → At buf off (xs ++ ys) → At buf (off + length xs) ys
At-skip buf off xs ys h = record {
  sized = h.sized;
  ends = omega (arith, h.ends, length-append xs ys);
  reads = rw (drop-add, h.reads) (drop-length_append xs ys);
}

pub At-whole : (xs : Bytes) → length xs < 2 ^ 63 → At xs 0 xs
At-whole xs h = record { sized = h; ends = omega arith; reads = refl }

-- What was appended to `out`, with more bytes behind it.
pub At-behind :
    (out bs rest : Bytes)
    → length out + length bs + length rest < 2 ^ 63
    → At ((out ++ bs) ++ rest) (length out) (bs ++ rest)
At-behind out bs rest h = rw append_assoc (record {
  sized = omega (arith, length-append out (bs ++ rest), length-append bs rest);
  ends = length-append out (bs ++ rest);
  reads = drop-length_append out (bs ++ rest);
})

-- The writer appends `bs`, whatever stands in the output.
abbrev pub Emits : Writer → Bytes → Type 0
Emits w bs = (out : Bytes) → w out ≡ some (out ++ bs)

-- The reader takes `bs` from the front of what follows, and answers `a`.
abbrev pub Parses {ℓ} : {A : Type ℓ} → Reader A → Bytes → A → Type ℓ
Parses p bs a =
    (buf : Bytes) (off : ℕ) (rest : Bytes)
    → At buf off (bs ++ rest)
    → p buf off ≡ some (a, off + length bs)

pub Emits-done : Emits done []
Emits-done out = rw append-nil

pub Emits-insert : (bs : Bytes) → Emits (insert bs) bs
Emits-insert bs out = refl

pub Emits-seq :
    (w v : Writer) {bs cs : Bytes} → Emits w bs → Emits v cs → Emits (seq w v) (bs ++ cs)
Emits-seq w v {bs} {cs} hw hv out =
    rw (hw out, seq) (hv (out ++ bs) ∙ ap some (append_assoc out bs cs))

-- The bytes of the elements, one after the other.
abbrev pub all_bytes {ℓ} : {A : Type ℓ} → (A → Bytes) → List A → Bytes
all_bytes f [] = []
all_bytes f (x ∷ xs) = f x ++ all_bytes f xs

pub Emits-for_each {ℓ} :
    {A : Type ℓ} (w : A → Writer) (bytes : A → Bytes) (xs : List A)
    → All (λ x. Emits (w x) (bytes x)) xs
    → Emits (for_each w xs) (all_bytes bytes xs)
unfolding for_each
Emits-for_each w bytes [] h = Emits-done
Emits-for_each w bytes (x ∷ xs) h =
    Emits-seq (w x) (for_each w xs) h.0 (Emits-for_each w bytes xs h.1)

module _ {ℓ} {A : Type ℓ} where
  pub Parses-return : (a : A) → Parses (return a) [] a
  Parses-return a buf off rest h = let e : off + 0 ≡ off = omega arith in rw e

module _ {ℓ κ} {A : Type ℓ} {B : Type κ} where
  pub Parses-bind :
      (p : Reader A) (f : A → Reader B) {a : A} {b : B} (bs cs : Bytes)
      → Parses p bs a
      → Parses (f a) cs b
      → Parses (p >>= f) (bs ++ cs) b
  Parses-bind p f {b = b} bs cs hp hf buf off rest h =
      rw (hp buf off (cs ++ rest) here, ◌>>=◌)
        (hf buf (off + length bs) rest (At-skip buf off bs (cs ++ rest) here)
          ∙ ap (λ n. some (b, n)) (omega (arith, length-append bs cs)))
    where
      here : At buf off (bs ++ (cs ++ rest))
      here = rw (append_assoc bs cs rest) at h

  pub Parses-map :
      (p : Reader A) (g : A → B) {a : A} (bs : Bytes)
      → Parses p bs a
      → Parses (p >>= λ x. return (g x)) bs (g a)
  Parses-map p g bs hp buf off rest h = rw (hp buf off rest h, ◌>>=◌)

  -- A reader that consumes nothing.
  pub Parses-pure :
      (p : Reader A) (f : A → Reader B) {a : A} {b : B} (bs : Bytes)
      → Parses p [] a
      → Parses (f a) bs b
      → Parses (p >>= f) bs b
  Parses-pure p f bs hp hf = Parses-bind p f [] bs hp hf

pub Parses-read_bytes : (bs : Bytes) → Parses (read_bytes (length bs)) bs bs
unfolding read_bytes
Parses-read_bytes bs buf off rest h =
    let room : off + length bs < 2 ^ 64 = omega (arith, h.sized, h.ends, length-append bs rest) in
    let small : (off + length bs) % 2 ^ 64 ≡ off + length bs = omega arith in
    rw (
      small,
      ltb-ge (length buf) (off + length bs) (omega (arith, h.ends, length-append bs rest)),
      h.reads,
      take-append,
    )

pub Parses-read_byte : (b : ℕ) → Parses read_byte (b ∷ []) b
unfolding read_byte
Parses-read_byte b buf off rest h =
    rw (leb-gt (length buf) off (omega (arith, h.ends)), first)
      (ap (λ n. some (b, n)) (omega arith))
  where
    first : get_or buf off 0 ≡ b
    first =
        let e : off + 0 ≡ off = omega arith in
        rw e at (sym (get_or-drop off 0 buf 0)) ∙ ap (λ (xs : Bytes). get_or xs 0 0) h.reads

pub Parses-read_many {ℓ} :
    {A : Type ℓ} (p : Reader A) (bytes : A → Bytes) (xs : List A)
    → All (λ x. Parses p (bytes x) x) xs
    → Parses (read_many p (length xs)) (all_bytes bytes xs) xs
unfolding read_many
Parses-read_many {A = A} p bytes [] h = Parses-return []
Parses-read_many {A = A} p bytes (x ∷ xs) h =
    Parses-bind _ _ (bytes x) (all_bytes bytes xs) h.0
      (Parses-map _ (◌∷◌ x) (all_bytes bytes xs) (Parses-read_many p bytes xs h.1))
