-- ===== src/Wire/Reader.antt =====
-- `bool f(std::span buf, std::size_t& offset, T& out)`: `none` is the answer false, with the
-- offset where it was; `some (a, off)` is true with `a` in `out` and the offset at `off`.
use libspaznet.Base.{
  ltb, leb, if◌then◌else◌, Bytes, length, get_or, take, drop, add64, ℕ, zero, suc, ◌+◌, ◌-◌, Bool,
  Option, none, some, List, [], ◌∷◌,
}

abbrev pub Reader {ℓ} : Type ℓ → Type ℓ
Reader A = Bytes → ℕ → Option (A × ℕ)

module _ {ℓ} {A : Type ℓ} where
  abbrev pub return : A → Reader A
  return a buf off = some (a, off)

  abbrev pub fail : Reader A
  fail buf off = none

infixl 5 ◌>>=◌ ◌>>◌
abbrev pub ◌>>=◌ {ℓ κ} : {A : Type ℓ} {B : Type κ} → Reader A → (A → Reader B) → Reader B
◌>>=◌ p f buf off = elim (p buf off) [ none ↦ none | some (a, off') ↦ f a buf off' ]

abbrev pub ◌>>◌ {ℓ} : {B : Type ℓ} → Reader (Unit {0}) → Reader B → Reader B
p >> q = p >>= λ _. q

-- `if (!test) { return false; }`
unfoldable pub guard : Bool → Reader (Unit {0})
guard b buf off = if b then some (tt, off) else none

-- The span `{buf.data() + off, n}`.
abbrev pub slice : Bytes → ℕ → ℕ → Bytes
slice buf off n = take n (drop off buf)

-- `read_bytes(buf, off, n, out)`
unfoldable pub read_bytes : ℕ → Reader Bytes
read_bytes n buf off =
    if ltb (length buf) (add64 off n) then none else some (slice buf off n, add64 off n)

-- `buf.size() - offset`
unfoldable pub remaining : Reader ℕ
remaining buf off = some (Prim.Native.Nat.◌-◌ (length buf) off, off)

-- `if (offset >= buf.size()) return false; b = buf[offset++];`
unfoldable pub read_byte : Reader ℕ
read_byte buf off = if leb (length buf) off then none else some (get_or buf off 0, off + 1)

-- A loop of `n` rounds that reads one element in each.
unfoldable pub read_many {ℓ} : {A : Type ℓ} → Reader A → ℕ → Reader (List A)
read_many p zero = return []
read_many p (suc n) = do a ← p; rest ← read_many p n; return (a ∷ rest)
