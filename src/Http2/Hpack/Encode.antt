-- ===== src/Http2/Hpack/Encode.antt =====
-- `HPACK::encode_headers`.
use libspaznet.Base.{
  ltb, ◌==◌, if◌then◌else◌, Bytes, length, get_or, drop, ℕ, ◌+◌, Bool, true, false, not, ◌&&◌, ◌||◌,
  Option, none, some, [], ◌∷◌, ◌++◌,
}
use libspaznet.Utils.Header.{Headers, same_text}
use libspaznet.Http2.Hpack.StaticTable.{static_table}
use libspaznet.Http2.Hpack.{encode_prefix_int, encode_string}

-- The first index from `i` on whose entry passes a test.
unfoldable pub find_index : (Bytes × Bytes → Bool) → Headers → ℕ → Option ℕ
find_index test [] i = none
find_index test (entry ∷ rest) i =
    let later = find_index test rest (i + 1) in if test entry then some i else later

abbrev pub same_entry : Bytes → Bytes → Bytes × Bytes → Bool
same_entry name value entry = same_text entry.0 name && same_text entry.1 value

-- The lambda `emit`.
unfoldable pub emit : Bytes × Bytes → Bytes
emit (name, value) = elim (find_index (same_entry name value) (drop 1 static_table) 1) [
  | some i ↦ encode_prefix_int 0x80 7 i
  | none ↦ elim (find_index (λ entry. same_text entry.0 name) (drop 1 static_table) 1) [
    | some i ↦ encode_prefix_int 0x00 4 i ++ encode_string value
    | none ↦ 0x00 ∷ (encode_string name ++ encode_string value)
  ]
]

-- `std::string` and `std::pair` compare bytes first to last, and names before values.
unfoldable pub before_text : Bytes → Bytes → Bool
before_text [] [] = false
before_text [] (y ∷ ys) = true
before_text (x ∷ xs) [] = false
before_text (x ∷ xs) (y ∷ ys) = ltb x y || ((x == y) && before_text xs ys)

unfoldable pub before_entry : Bytes × Bytes → Bytes × Bytes → Bool
before_entry (k, v) (k', v') = before_text k k' || (same_text k k' && before_text v v')

-- `std::sort`: the ascending order of the entries.
unfoldable pub place : Bytes × Bytes → Headers → Headers
place entry [] = entry ∷ []
place entry (other ∷ rest) =
    let later = place entry rest in
    if before_entry other entry then other ∷ later else entry ∷ other ∷ rest

unfoldable pub sort : Headers → Headers
sort [] = []
sort (entry ∷ rest) = place entry (sort rest)

abbrev pub is_pseudo : Bytes × Bytes → Bool
is_pseudo (key, value) = ltb 0 (length key) && (get_or key 0 0 == 58)

unfoldable pub keep : (Bytes × Bytes → Bool) → Headers → Headers
keep test [] = []
keep test (entry ∷ rest) = let later = keep test rest in if test entry then entry ∷ later else later

unfoldable pub emit_all : Headers → Bytes
emit_all [] = []
emit_all (entry ∷ rest) = emit entry ++ emit_all rest

-- The order in which `encode_headers` emits.
unfoldable pub ordered : Headers → Headers
ordered headers = sort (keep is_pseudo headers) ++ sort (keep (λ e. not (is_pseudo e)) headers)

unfoldable pub encode_headers : Headers → Bytes
encode_headers headers = emit_all (ordered headers)
