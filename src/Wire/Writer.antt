-- ===== src/Wire/Writer.antt =====
-- `void f(std::vector<uint8_t>& out, ...)`: the new content of `out`, or `none` where the call
-- throws (`VarInt::append` of a value above 2 ^ 62 - 1).
use libspaznet.Base.{Bool, Option, none, some, Bytes, ◌++◌, if◌then◌else◌, List, [], ◌∷◌}

abbrev pub Writer : Type 0
Writer = Bytes → Option Bytes

abbrev pub done : Writer
done out = some out

infixl 5 ◌>>◌
abbrev pub ◌>>◌ : Writer → Writer → Writer
◌>>◌ w v out = elim (w out) [ none ↦ none | some out' ↦ v out' ]

-- `out.insert(out.end(), bs.begin(), bs.end())`; `push_back` of one byte.
abbrev pub insert : Bytes → Writer
insert bs out = some (out ++ bs)

abbrev pub when : Bool → Writer → Writer
when b w = if b then w else done

-- `for (auto const& x : xs) w(out, x);`
unfoldable pub for_each {ℓ} : {A : Type ℓ} → (A → Writer) → List A → Writer
for_each w [] = done
for_each w (x ∷ xs) = w x >> for_each w xs
