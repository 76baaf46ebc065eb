-- ===== src/Wire/Loop.antt =====
-- `while (off < buf.size()) { if (!read(buf, off, x)) return false; out.push_back(x); }`
use libspaznet.Base.{
  ltb, if◌then◌else◌, ltb→lt, lt→ltb, ltb-ge, Bool-cases, Option-cases, Bytes, length, All,
  length-append, ℕ, zero, suc, ◌+◌, ◌≤◌, ◌<◌, ◌≡◌, refl, sym, ap, ◌∙◌, ◌≢◌, inl, inr, none, some,
  List, [], ◌∷◌, ◌++◌, append-nil, append_assoc, arith,
}
use libspaznet.Wire.Reader.{Reader}
use libspaznet.Wire.RoundTrip.{At, Parses, all_bytes, At-skip}

-- `stuck` is no answer of the source: the rounds ran out.
pub data Outcome {ℓ} (A : Type ℓ) : Type ℓ where
  finished : List A → Outcome A
  refused : Outcome A
  stuck : Outcome A

module _ {ℓ} {A : Type ℓ} where
  unfoldable pub read_all : Reader A → ℕ → Bytes → ℕ → List A → Outcome A
  read_all p zero buf off out = if ltb off (length buf) then stuck else finished out
  read_all p (suc fuel) buf off out =
      if ltb off (length buf)
      then (elim (p buf off) [
        | none ↦ refused
        | some (x, off') ↦ read_all p fuel buf off' (out ++ x ∷ [])
      ])
      else finished out

  read_all-end :
      (p : Reader A) (fuel : ℕ) (buf : Bytes) (off : ℕ) (out : List A)
      → length buf ≤ off
      → read_all p fuel buf off out ≡ finished out
  unfolding read_all
  read_all-end p zero buf off out h = rw (ltb-ge off (length buf) h) refl
  read_all-end p (suc fuel) buf off out h = rw (ltb-ge off (length buf) h) refl

  -- Elements that stand one after the other are read, as long as each has a byte.
  pub read_all-Parses :
      (p : Reader A) (bytes : A → Bytes) (xs : List A) (fuel : ℕ) (buf : Bytes) (off : ℕ)
      (out : List A)
      → All (λ x. Parses p (bytes x) x × (0 < length (bytes x))) xs
      → At buf off (all_bytes bytes xs)
      → length (all_bytes bytes xs) ≤ fuel
      → read_all p fuel buf off out ≡ finished (out ++ xs)
  unfolding read_all
  read_all-Parses p bytes [] fuel buf off out h at enough =
      read_all-end p fuel buf off out (omega (arith, at.ends)) ∙ ap finished (sym (append-nil out))
  read_all-Parses p bytes (x ∷ xs) zero buf off out ((hp, some_byte), h) at enough =
      absurd (omega (arith, length-append (bytes x) (all_bytes bytes xs)))
  read_all-Parses p bytes (x ∷ xs) (suc fuel) buf off out ((hp, some_byte), h) at enough =
      rw
        (
          lt→ltb off (length buf) (omega (arith, at.ends, sizes)),
          hp buf off (all_bytes bytes xs) at,
        )
        (read_all-Parses p bytes xs fuel buf (off + length (bytes x)) (out ++ x ∷ []) h
            (At-skip buf off (bytes x) (all_bytes bytes xs) at) (omega (arith, sizes))
          ∙ ap finished (append_assoc out (x ∷ []) xs))
    where
      sizes :
          length (bytes x ++ all_bytes bytes xs) ≡ length (bytes x) + length (all_bytes bytes xs)
      sizes = length-append (bytes x) (all_bytes bytes xs)

  -- A reader that moves on ends the loop within as many rounds as there are bytes.
  pub read_all-ne-stuck :
      (p : Reader A) (fuel : ℕ) (buf : Bytes) (off : ℕ) (out : List A)
      → ((o o' : ℕ) (x : A) → o < length buf → p buf o ≡ some (x, o') → o < o')
      → length buf ≤ off + fuel
      → read_all p fuel buf off out ≢ stuck
  unfolding read_all
  read_all-ne-stuck p zero buf off out moves enough =
      rw (ltb-ge off (length buf) (omega arith)) (λ e. cc e)
  read_all-ne-stuck p (suc fuel) buf off out moves enough =
      elim (Bool-cases (ltb off (length buf))) [
        | inr past ↦ rw past (λ e. cc e)
        | inl before ↦ rw before (elim (Option-cases (p buf off)) [
          | inl failed ↦ rw failed (λ e. cc e)
          | inr ((x, off'), e) ↦ rw e (
              read_all-ne-stuck p fuel buf off' (out ++ x ∷ []) moves
                (omega (arith, moves off off' x (ltb→lt off (length buf) before) e)))
        ])
      ]
