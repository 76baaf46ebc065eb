-- ===== src/Wire/Codec.antt =====
-- A writer and a reader that fit: what the one appends, the other takes, and answers `a`.
use libspaznet.Base.{
  Bytes, length, length-append, ℕ, ◌+◌, ◌^◌, ◌<◌, ◌≡◌, sym, ap, ◌∙◌, subst, Bool, true, some, [],
  ◌∷◌, ◌++◌,
}
use libspaznet.Wire.Reader.{Reader, return, ◌>>=◌, read_bytes, read_byte, guard}
use libspaznet.Wire.Writer.{Writer, done, ◌>>◌ as seq, insert}
use libspaznet.Wire.RoundTrip.{
  At-behind, Emits, Parses, Emits-done, Emits-insert, Emits-seq, Parses-return, Parses-bind,
  Parses-map, Parses-read_bytes, Parses-read_byte,
}

-- `Codec w p a` has the bytes between the two.
abbrev pub Codec {ℓ} : {A : Type ℓ} → Writer → Reader A → A → Type ℓ
Codec w p a = (bs : Bytes) × Emits w bs × Parses p bs a

module _ {ℓ κ} {A : Type ℓ} {B : Type κ} where
  pub Codec-bind :
      {w v : Writer} {p : Reader A} (f : A → Reader B) {a : A} {b : B}
      → Codec w p a
      → Codec v (f a) b
      → Codec (seq w v) (p >>= f) b
  Codec-bind {w} {v} {p} f {a} {b} (bs, hw, hp) (cs, hv, hf) =
      (bs ++ cs, Emits-seq w v hw hv, Parses-bind p f bs cs hp hf)

  pub Codec-map :
      {w : Writer} {p : Reader A} (g : A → B) {a : A}
      → Codec w p a
      → Codec w (p >>= λ x. return (g x)) (g a)
  Codec-map {p = p} g (bs, hw, hp) = (bs, hw, Parses-map p g bs hp)

  -- What follows the read takes nothing more.
  pub Codec-end :
      {w : Writer} {p : Reader A} (f : A → Reader B) {a : A} {b : B}
      → Codec w p a
      → ((buf : Bytes) (off : ℕ) → f a buf off ≡ some (b, off))
      → Codec w (p >>= f) b
  Codec-end f (bs, hw, hp) ends =
      (bs, hw, λ buf off rest h. rw (hp buf off rest h, ◌>>=◌) (ends buf (off + length bs)))

module _ {ℓ} {A : Type ℓ} where
  pub Codec-guard :
      {w : Writer} {p : Reader A} {a : A} (b : Bool)
      → b ≡ true
      → Codec w p a
      → Codec w (guard b >>= λ _. p) a
  unfolding guard
  Codec-guard b e (bs, hw, hp) = (bs, hw, λ buf off rest h. rw (e, ◌>>=◌) (hp buf off rest h))

  pub Codec-return : (a : A) → Codec done (return a) a
  Codec-return a = ([], Emits-done, Parses-return a)

pub Codec-insert : (bs : Bytes) → Codec (insert bs) (read_bytes (length bs)) bs
Codec-insert bs = (bs, Emits-insert bs, Parses-read_bytes bs)

pub Codec-array : (bs : Bytes) (n : ℕ) → length bs ≡ n → Codec (insert bs) (read_bytes n) bs
Codec-array bs n e = subst (λ m. Codec (insert bs) (read_bytes m) bs) e (Codec-insert bs)

pub Codec-byte : (b : ℕ) → Codec (insert (b ∷ [])) read_byte b
Codec-byte b = (b ∷ [], Emits-insert (b ∷ []), Parses-read_byte b)

-- One frame in a larger output: `w` writes it behind `out`, and `p`, started there, takes it and
-- stops at its end.
pub Codec-placed {ℓ} :
    {A : Type ℓ} {w : Writer} {p : Reader A} {a : A} (c : Codec w p a) (out rest : Bytes)
    → length out + length c.0 + length rest < 2 ^ 63
    → (out' : Bytes) × (w out ≡ some out') × (p (out' ++ rest) (length out) ≡ some (a, length out'))
Codec-placed {a = a} (bs, hw, hp) out rest h = (
  out ++ bs,
  hw out,
  hp _ (length out) rest (At-behind out bs rest h)
      ∙ ap (λ n. some (a, n)) (sym (length-append out bs)),
)
