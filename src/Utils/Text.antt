-- ===== src/Utils/Text.antt =====
-- src/utils/string_utils.cpp, and the spaces at the ends of a header's value.
pub mod Trim
use libspaznet.Base.{
  ltb, leb, ◌==◌, if◌then◌else◌, Bytes, length, get_or, take, drop, ℕ, zero, suc, ◌+◌, ◌-◌, Bool,
  ◌&&◌, ◌||◌, [], ◌∷◌,
}

-- `std::tolower` of the "C" locale, on each byte.
unfoldable pub lower : ℕ → ℕ
lower c = if leb 65 c && leb c 90 then c + 32 else c

unfoldable pub to_lower : Bytes → Bytes
to_lower [] = []
to_lower (c ∷ cs) = lower c ∷ to_lower cs

abbrev pub is_ows : ℕ → Bool
is_ows c = c == 32 || c == 9

-- The two loops: how far `start` goes, and where `end` stops, which it does at `start`.
unfoldable pub skip_ows : Bytes → ℕ
skip_ows [] = 0
skip_ows (c ∷ cs) = let n = skip_ows cs in if is_ows c then suc n else 0

unfoldable pub end_ows : Bytes → ℕ → ℕ → ℕ
end_ows input start zero = 0
end_ows input start (suc e) =
    let rest = end_ows input start e in
    if ltb start (suc e) && is_ows (get_or input e 0) then rest else suc e

unfoldable pub trim_ows : Bytes → Bytes
trim_ows input =
    let start = skip_ows input in
    let end = end_ows input start (length input) in take (end - start) (drop start input)
