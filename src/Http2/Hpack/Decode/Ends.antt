-- ===== src/Http2/Hpack/Decode/Ends.antt =====
-- `decode_headers` ends on any bytes: each round takes a byte at least.
use libspaznet.Base.{
  ltb, leb, ◌==◌, if◌then◌else◌, ltb-ge, Bool-cases, Option-cases, Bytes, length, get_or, take,
  drop, ℕ, zero, suc, ◌+◌, ◌-◌, ◌*◌, ◌%◌, ◌^◌, ◌≤◌, ◌<◌, bit_and, ◌≡◌, ◌≢◌, inl, inr, Bool, true,
  false, not, ◌||◌, Option, none, some, [], ◌∷◌, arith,
}
use libspaznet.Wire.Reader.{Reader, return, ◌>>=◌}
use libspaznet.Wire.Safe.{bind-eq-some}
use libspaznet.Utils.Header.{Headers}
use libspaznet.Http2.Hpack.{more_bytes, decode_prefix_int, decode_string, spelled}
use libspaznet.Http2.Hpack.Decode.{
  indexed, read_name, literal, size_update, field_of, field, store, decode_loop, decode_headers,
}

-- A reader that never moves back, or moves on.
abbrev Stays {ℓ} : {A : Type ℓ} → Reader A → Type ℓ
Stays {A = A} p =
    (buf : Bytes) (off : ℕ) (a : A) (off' : ℕ) → p buf off ≡ some (a, off') → off ≤ off'

abbrev Moves {ℓ} : {A : Type ℓ} → Reader A → Type ℓ
Moves {A = A} p =
    (buf : Bytes) (off : ℕ) (a : A) (off' : ℕ) → p buf off ≡ some (a, off') → off < off'

module _ {ℓ κ} {A : Type ℓ} {B : Type κ} (p : Reader A) (f : A → Reader B) where
  Stays-bind : Stays p → ((a : A) → Stays (f a)) → Stays (p >>= f)
  Stays-bind hp hf buf off b end e =
      let (a, mid, e₁, e₂) = bind-eq-some p f buf off e in
      omega (arith, hp buf off a mid e₁, hf a buf mid b end e₂)

  Moves-bind : Moves p → ((a : A) → Stays (f a)) → Moves (p >>= f)
  Moves-bind hp hf buf off b end e =
      let (a, mid, e₁, e₂) = bind-eq-some p f buf off e in
      omega (arith, hp buf off a mid e₁, hf a buf mid b end e₂)

Stays-return {ℓ} : {A : Type ℓ} (a : A) → Stays (return a)
Stays-return a buf off b end e = ground arith

more_bytes-moves :
    (bs : Bytes) (off m v w off' : ℕ) → more_bytes bs off m v ≡ some (w, off') → off ≤ off'
unfolding more_bytes
more_bytes-moves [] off m v w off' e = cc e
more_bytes-moves (b ∷ rest) off m v w off' e =
    let v' = (v + bit_and b 0x7F * 2 ^ m % 2 ^ 32) % 2 ^ 32 in
    elim (Bool-cases (bit_and b 0x80 == 0)) [
      | inl last ↦
          (let h : Path (Option (ℕ × ℕ)) (some (v', off + 1)) (some (w, off')) = rw last at e in
            ground arith)
      | inr more ↦ elim (Bool-cases (ltb 28 (m + 7))) [
        | inl long ↦ absurd (cc (rw (more, long) at e))
        | inr short ↦
            let h = more_bytes-moves rest (off + 1) (m + 7) v' w off' (rw (more, short) at e) in
            omega arith
      ]
    ]

Moves-prefix_int : (k : ℕ) → Moves (decode_prefix_int k)
unfolding decode_prefix_int
Moves-prefix_int k buf off a off' e =
    elim (Bool-cases (leb (length buf) off || (ltb k 1 || ltb 8 k))) [
      | inl bad ↦ absurd (cc (rw bad at e))
      | inr good ↦ elim (Bool-cases (ltb (bit_and (get_or buf off 0) (2 ^ k - 1)) (2 ^ k - 1))) [
        | inl short ↦ ground (arith, (rw (good, short) at e))
        | inr long ↦
            let h =
              more_bytes-moves (drop (off + 1) buf) (off + 1) 0
                (bit_and (get_or buf off 0) (2 ^ k - 1)) a off' (rw (good, long) at e) in
            omega arith
      ]
    ]

Moves-string : Moves decode_string
unfolding decode_string
Moves-string buf off a off' e = elim (Bool-cases (leb (length buf) off)) [
  | inl bad ↦ absurd (cc (rw bad at e))
  | inr good ↦ elim (Option-cases (decode_prefix_int 7 buf off)) [
    | inl failed ↦ absurd (cc (rw (good, failed) at e))
    | inr ((size, mid), found) ↦
        let up = Moves-prefix_int 7 buf off size mid found in
        let raw = take size (drop mid buf) in
        let flag = not (bit_and (get_or buf off 0) 0x80 == 0) in
        elim (Bool-cases (ltb (length buf) (mid + size))) [
          | inl cut ↦ absurd (cc (rw (good, found, cut) at e))
          | inr whole ↦ elim (Option-cases (spelled flag raw)) [
            | inl wrong ↦ absurd (cc (rw (good, found, whole, wrong) at e))
            | inr (s, right) ↦
                let h : Path (Option (Bytes × ℕ)) (some (s, mid + size)) (some (a, off')) =
                  rw (good, found, whole, right) at e in
                let end : mid + size ≡ off' = cc h in omega arith
          ]
        ]
  ]
]

Moves-Stays {ℓ} : {A : Type ℓ} {p : Reader A} → Moves p → Stays p
Moves-Stays h buf off a off' e = omega (arith, h buf off a off' e)

Stays-if {ℓ} :
    {A : Type ℓ} (b : Bool) {p q : Reader A} → Stays p → Stays q → Stays (if b then p else q)
Stays-if true hp hq = hp
Stays-if false hp hq = hq

Moves-if {ℓ} :
    {A : Type ℓ} (b : Bool) {p q : Reader A} → Moves p → Moves q → Moves (if b then p else q)
Moves-if true hp hq = hp
Moves-if false hp hq = hq

Stays-read_name : (i : ℕ) → Stays (read_name i)
unfolding read_name
Stays-read_name i = Stays-if (i == 0) (Moves-Stays Moves-string) (Stays-return _)

Moves-literal : (k : ℕ) → Moves (literal k)
unfolding literal
Moves-literal k = Moves-bind _ _ (Moves-prefix_int k) λ i.
    Stays-bind _ _ (Stays-read_name i)
      λ name. Stays-bind _ _ (Moves-Stays Moves-string) λ value. Stays-return _

Moves-field_of : (b : ℕ) → Moves (field_of b)
unfolding field_of indexed size_update
Moves-field_of b =
    Moves-if (not (bit_and b 0x80 == 0)) (Moves-bind _ _ (Moves-prefix_int 7) λ i. Stays-return _) (
      Moves-if (bit_and b 0xC0 == 0x40) (Moves-literal 6) (
        Moves-if (bit_and b 0xE0 == 0x20) (Moves-bind _ _ (Moves-prefix_int 5) λ i. Stays-return _)
          (Moves-if ((bit_and b 0xF0 == 0x00) || (bit_and b 0xF0 == 0x10)) (Moves-literal 4)
            (λ buf off a off' e. cc e))))

loop_ends :
    (fuel : ℕ) (buf : Bytes) (off : ℕ) (headers : Headers)
    → length buf ≤ off + fuel
    → decode_loop fuel buf off headers ≢ none
unfolding decode_loop field
loop_ends zero buf off headers enough = rw (ltb-ge off (length buf) (omega arith)) (λ e. cc e)
loop_ends (suc fuel) buf off headers enough = elim (Bool-cases (ltb off (length buf))) [
  | inr past ↦ rw past (λ e. cc e)
  | inl before ↦ elim (Option-cases (field buf off)) [
    | inl failed ↦ rw (before, failed, decode_loop) (λ e. cc e)
    | inr ((entry, off'), found) ↦
        rw (before, found, decode_loop)
          (loop_ends fuel buf off' (store entry headers)
            (omega (arith, Moves-field_of (get_or buf off 0) buf off entry off' found)))
  ]
]

-- `decode_headers` answers some headers for every sequence of bytes, well-formed or not: the loop
-- ends within as many rounds as there are bytes.
pub decode_headers-ne-none : (bytes : Bytes) → decode_headers bytes ≢ none
unfolding decode_headers
decode_headers-ne-none bytes = loop_ends (length bytes) bytes 0 [] (omega arith)
