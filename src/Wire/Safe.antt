-- ===== src/Wire/Safe.antt =====
-- Where a reader may leave the offset: not before where it started, and not past the buffer.
use libspaznet.Base.{
  if◌then◌else◌, Bytes, length, All, All-get_or, ℕ, zero, suc, ◌^◌, ◌≤◌, ◌<◌, ◌≡◌, refl, subst,
  Bool, true, false, Option, none, some, [], arith,
}
use libspaznet.Wire.Reader.{
  Reader, return, ◌>>=◌, guard, read_bytes, remaining, read_byte, read_many, fail,
}

abbrev pub IsByte : ℕ → Type 0
IsByte b = b < 256

-- A span of bytes; an object has fewer than 2 ^ 63 of them.
abbrev pub IsBuffer : Bytes → Type 0
IsBuffer buf = All IsByte buf × (length buf < 2 ^ 63)

-- On true the offset has not moved back and is inside the buffer, and `Q` holds of the answer.
abbrev pub Safe {ℓ κ} : {A : Type ℓ} → Reader A → (A → Type κ) → Type (ℓ ⊔ κ)
Safe {A = A} p Q =
    (buf : Bytes) (off : ℕ) (a : A) (off' : ℕ)
    → IsBuffer buf
    → off ≤ length buf
    → p buf off ≡ some (a, off')
    → Q a × (off ≤ off') × (off' ≤ length buf)

-- Nothing is asked of the answer.
abbrev pub Any {ℓ} : {A : Type ℓ} → A → Type 0
Any a = Unit

pub bind-eq-some {ℓ κ} :
    {A : Type ℓ} {B : Type κ} (p : Reader A) (f : A → Reader B) (buf : Bytes) (off : ℕ) {b : B}
    {end : ℕ}
    → (p >>= f) buf off ≡ some (b, end)
    → (a : A) × (mid : ℕ) × (p buf off ≡ some (a, mid)) × (f a buf mid ≡ some (b, end))
bind-eq-some {A = A} {B} p f buf off {b} {end} e = split (p buf off) refl e
  where
    split :
        (o : Option (A × ℕ))
        → p buf off ≡ o
        → elim o as (λ _. Option (B × ℕ)) [ none ↦ none | some (a, mid) ↦ f a buf mid ]
          ≡ some (b, end)
        → (a : A) × (mid : ℕ) × (p buf off ≡ some (a, mid)) × (f a buf mid ≡ some (b, end))
    split none h r = cc
    split (some (a, mid)) h r = (a, mid, h, r)

module _ {ℓ κ} {A : Type ℓ} {B : Type κ} where
  pub Safe-bind {λ₁ λ₂} :
      (p : Reader A) (f : A → Reader B) {Q : A → Type λ₁} {R : B → Type λ₂}
      → Safe p Q
      → ((a : A) → Q a → Safe (f a) R)
      → Safe (p >>= f) R
  Safe-bind p f hp hf buf off b end hb lo e =
      let (a, mid, e₁, e₂) = bind-eq-some p f buf off e in
      let (q, up, inside) = hp buf off a mid hb lo e₁ in
      let (r, up', inside') = hf a q buf mid b end hb inside e₂ in (r, omega arith, inside')

module _ {ℓ} {A : Type ℓ} where
  pub Safe-return {κ} : (Q : A → Type κ) (a : A) → Q a → Safe (return a) Q
  Safe-return Q a q buf off b end hb lo e =
      let same : a ≡ b = ground arith in (subst Q same q, ground arith, ground arith)

  pub Safe-fail {κ} : (Q : A → Type κ) → Safe (fail {A = A}) Q
  Safe-fail Q buf off b end hb lo e = cc

  pub Safe-if {κ} :
      {Q : A → Type κ} (c : Bool) (p q : Reader A)
      → Safe p Q
      → Safe q Q
      → Safe (if c then p else q) Q
  Safe-if true p q hp hq = hp
  Safe-if false p q hp hq = hq

pub Safe-weaken {ℓ κ μ} :
    {A : Type ℓ} {Q : A → Type κ} {R : A → Type μ} (p : Reader A)
    → ((a : A) → Q a → R a)
    → Safe p Q
    → Safe p R
Safe-weaken p f h buf off a end hb lo e =
    let (q, up, inside) = h buf off a end hb lo e in (f a q, up, inside)

pub Safe-guard : (b : Bool) → Safe (guard b) Any
unfolding guard
Safe-guard b buf off a end hb lo e = ground arith

pub Safe-read_byte : Safe read_byte IsByte
unfolding read_byte
Safe-read_byte buf off a end hb lo e = ground (arith, All-get_or IsByte buf off 0 hb.0)

pub Safe-read_bytes : (n : ℕ) → n < 2 ^ 63 → Safe (read_bytes n) Any
unfolding read_bytes
Safe-read_bytes n small buf off a end hb lo e = ground arith

-- Small enough for an offset plus it not to wrap.
abbrev pub IsSize : ℕ → Type 0
IsSize n = n < 2 ^ 63

pub Safe-remaining : Safe remaining IsSize
unfolding remaining
Safe-remaining buf off a end hb lo e = ground (arith, hb.1)

pub Safe-read_many {ℓ} : {A : Type ℓ} (p : Reader A) (n : ℕ) → Safe p Any → Safe (read_many p n) Any
unfolding read_many
Safe-read_many p zero h = Safe-return Any [] tt
Safe-read_many p (suc n) h =
    Safe-bind _ _ h λ a _. Safe-bind _ _ (Safe-read_many p n h) λ rest _. Safe-return Any _ tt
