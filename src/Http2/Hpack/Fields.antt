-- ===== src/Http2/Hpack/Fields.antt =====
-- What `emit` writes for a header, one round of `decode_headers` reads.
use libspaznet.Base.{
  ltb, leb, ◌==◌, if◌then◌else◌, lt→ltb, leb-gt, Bool-cases, Option-cases, Bytes, length, get_or,
  drop, length-append, length-drop, get_or-drop, ℕ, suc, ◌+◌, ◌*◌, ◌/◌, ◌^◌, ◌≤◌, ◌<◌, bit_and, ◌≡◌,
  refl, sym, ap, ◌∙◌, subst, inl, inr, Bool, true, false, ◌||◌, Option, none, some, [], ◌∷◌, ◌++◌,
  append-nil, append_assoc, arith,
}
use libspaznet.Wire.Reader.{Reader, return, ◌>>=◌}
use libspaznet.Wire.RoundTrip.{Parses, Parses-bind, Parses-map, Parses-return}
use libspaznet.Utils.Header.{Headers, same_text, same_text_iff}
use libspaznet.Http2.Hpack.{
  decode_prefix_int, encode_prefix_int, decode_string, encode_string, get_static_table_entry,
  get_static_table_size,
}
use libspaznet.Http2.Hpack.StaticTable.{static_table}
use libspaznet.Http2.Hpack.Integers.{Parses-prefix_int, prefix_int_head}
use libspaznet.Http2.Hpack.Strings.{masked, first_of, Parses-string}
use libspaznet.Http2.Hpack.Encode.{find_index, same_entry, emit}
use libspaznet.Http2.Hpack.Decode.{indexed, read_name, literal, field_of, field}
use libspaznet.Base.Bits.{bit_and-shifted, bit_and-mask}

-- A name that is not empty; lengths are `uint32_t`.
pub record IsEntry (e : Bytes × Bytes) : Type 0 where
  pub named : 0 < length e.0
  pub name_sized : length e.0 < 2 ^ 32
  pub value_sized : length e.1 < 2 ^ 32

table_size : get_static_table_size ≡ 62
unfolding get_static_table_size static_table
table_size = refl

find_index-some :
    (test : Bytes × Bytes → Bool) (xs : Headers) (i j : ℕ)
    → find_index test xs i ≡ some j
    → (d : ℕ) × (j ≡ i + d) × (d < length xs) × (test (get_or xs d ([], [])) ≡ true)
unfolding find_index
find_index-some test [] i j e = cc e
find_index-some test (x ∷ xs) i j e = elim (Bool-cases (test x)) [
  | inl hit ↦ let same : i ≡ j = cc (rw hit at e) in (0, omega arith, omega arith, hit)
  | inr miss ↦
      let (d, at, inside, hit) = find_index-some test xs (i + 1) j (rw miss at e) in
      (suc d, omega arith, omega arith, hit)
]

-- An index that the encoder finds is in the table, and not 0.
found_in_table :
    (test : Bytes × Bytes → Bool) (i : ℕ)
    → find_index test (drop 1 static_table) 1 ≡ some i
    → (0 < i) × (i < 62) × (test (get_static_table_entry i) ≡ true)
unfolding get_static_table_entry get_static_table_size
found_in_table test i e =
    let (d, at, inside, hit) = find_index-some test (drop 1 static_table) 1 i e in
    let same : get_or (drop 1 static_table) d ([], []) ≡ get_or static_table i ([], []) =
      get_or-drop 1 d static_table ([], [])
      ∙ ap (λ (k : ℕ). get_or static_table k ([], [])) (sym at) in
    (omega arith, omega (arith, length-drop 1 static_table, table_size), rw same at hit)

field_of-indexed : (r : ℕ) → r < 128 → field_of (1 * 2 ^ 7 + r) ≡ indexed
unfolding field_of
field_of-indexed r h =
    let e : bit_and (1 * 2 ^ 7 + r) 0x80 ≡ 128 =
      bit_and-shifted 7 (1 * 2 ^ 7 + r) 1
      ∙ rw (bit_and-mask 1 ((1 * 2 ^ 7 + r) / 2 ^ 7)) (omega arith) in
    rw e refl

field_of-literal : (r : ℕ) → r < 16 → field_of r ≡ literal 4
unfolding field_of
field_of-literal r h = rw (masked 4 8 r h, masked 4 12 r h, masked 4 14 r h, masked 4 15 r h) refl

Parses-field :
    (q k v : ℕ) (p : Reader (Option (Bytes × Bytes))) (rest : Bytes) (e : Bytes × Bytes)
    → k ≤ 8
    → ((r : ℕ) → r < 2 ^ k → field_of (q * 2 ^ k + r) ≡ p)
    → Parses p (encode_prefix_int (q * 2 ^ k) k v ++ rest) (some e)
    → Parses field (encode_prefix_int (q * 2 ^ k) k v ++ rest) (some e)
unfolding field
Parses-field q k v p rest e small chosen hp buf off more at =
    let (r, below, byte, inside) =
      first_of q k v buf off (rest ++ more) small (rw append_assoc at at) in
    rw (byte, chosen r below) (hp buf off more at)

Parses-indexed :
    (i : ℕ) (e : Bytes × Bytes)
    → 0 < i
    → i < 62
    → get_static_table_entry i ≡ e
    → Parses indexed (encode_prefix_int 0x80 7 i) (some e)
unfolding indexed
Parses-indexed i e some_index inside entry =
    let g : ℕ → Option (Bytes × Bytes) = λ index.
      if index == 0 || leb get_static_table_size index
      then none
      else some (get_static_table_entry index) in
    let same : g i ≡ some e =
      let z : (i == 0) ≡ false = ground arith in
      let l : leb get_static_table_size i ≡ false =
        leb-gt get_static_table_size i (omega (arith, table_size)) in
      rw (z, l, entry) refl in
    subst (λ x. Parses indexed (encode_prefix_int 0x80 7 i) x) same
      (Parses-map (decode_prefix_int 7) g (encode_prefix_int 0x80 7 i)
        (Parses-prefix_int 1 7 i (omega arith) (omega arith) (omega arith)))

Parses-literal :
    (i : ℕ) (e : Bytes × Bytes) (name_bytes : Bytes)
    → i < 62
    → IsEntry e
    → Parses (read_name i) name_bytes e.0
    → Parses (literal 4) (encode_prefix_int 0 4 i ++ (name_bytes ++ encode_string e.1)) (some e)
unfolding literal
Parses-literal i (name, value) name_bytes inside h hn =
    let g : Bytes → Option (Bytes × Bytes) =
      λ v. if length name == 0 then none else some (name, v) in
    let z : (length name == 0) ≡ false = ground (arith, h.named) in
    let same : g value ≡ some (name, value) = rw z refl in
    Parses-bind (decode_prefix_int 4) _ (encode_prefix_int 0 4 i) _
      (Parses-prefix_int 0 4 i (omega arith) (omega arith) (omega arith))
      (Parses-bind (read_name i) _ name_bytes (encode_string value) hn (
        subst (λ x. Parses (decode_string >>= λ v. return (g v)) (encode_string value) x) same
          (Parses-map decode_string g (encode_string value) (Parses-string value h.value_sized))))

same_entry-eq :
    (name value : Bytes) (e : Bytes × Bytes) → same_entry name value e ≡ true → e ≡ (name, value)
same_entry-eq name value (k, v) h =
    let (hk, hv) : (same_text k name ≡ true) × (same_text v value ≡ true) = ground (arith, h) in
    cc ((same_text_iff k name).0 hk, (same_text_iff v value).0 hv)

-- A literal with the name at an index, or with a name of its own.
literal_field :
    (i : ℕ) (e : Bytes × Bytes) (name_bytes : Bytes)
    → i < 62
    → IsEntry e
    → Parses (read_name i) name_bytes e.0
    → Parses field (encode_prefix_int 0 4 i ++ (name_bytes ++ encode_string e.1)) (some e)
literal_field i e name_bytes inside h hn =
    Parses-field 0 4 i (literal 4) (name_bytes ++ encode_string e.1) e (omega arith)
      (λ r below. (let z : 0 * 2 ^ 4 + r ≡ r = omega arith in rw z (field_of-literal r below)))
      (Parses-literal i e name_bytes inside h hn)

named_by_table :
    (i : ℕ) (e : Bytes × Bytes)
    → 0 < i
    → i < 62
    → (get_static_table_entry i).0 ≡ e.0
    → Parses (read_name i) [] e.0
unfolding read_name
named_by_table i e some_index inside same =
    let z : (i == 0) ≡ false = ground arith in
    let l : ltb i get_static_table_size ≡ true =
      lt→ltb i get_static_table_size (omega (arith, table_size)) in
    rw (z, l, same) (Parses-return e.0)

named_itself :
    (name : Bytes) → length name < 2 ^ 32 → Parses (read_name 0) (encode_string name) name
unfolding read_name
named_itself name h = Parses-string name h

zero_index : encode_prefix_int 0x00 4 0 ≡ 0x00 ∷ []
unfolding encode_prefix_int
zero_index = refl

new_name :
    {e : Bytes × Bytes} (bs : Bytes)
    → Parses field (encode_prefix_int 0x00 4 0 ++ bs) (some e)
    → Parses field (0x00 ∷ bs) (some e)
new_name {e} bs h = subst (λ (xs : Bytes). Parses field (xs ++ bs) (some e)) zero_index h

-- What `emit` writes, in each of its three forms, is read as the header: no more bytes, no fewer.
pub Parses-emit : (e : Bytes × Bytes) → IsEntry e → Parses field (emit e) (some e)
unfolding emit
Parses-emit (name, value) h =
    elim (Option-cases (find_index (same_entry name value) (drop 1 static_table) 1)) [
      | inr (i, found) ↦
          let (some_index, inside, hit) = found_in_table (same_entry name value) i found in
          let entry = same_entry-eq name value (get_static_table_entry i) hit in
          let e : encode_prefix_int 0x80 7 i ++ [] ≡ encode_prefix_int 0x80 7 i = append-nil _ in
          rw (found, emit)
            (rw (← e) (
              Parses-field 1 7 i indexed [] (name, value) (omega arith) field_of-indexed
                (rw e (Parses-indexed i (name, value) some_index inside entry))))
      | inl no_entry ↦
          elim (Option-cases
            (find_index (λ entry. same_text entry.0 name) (drop 1 static_table) 1)) [
              | inr (i, found) ↦
                  let (some_index, inside, hit) =
                    found_in_table (λ entry. same_text entry.0 name) i found in
                  let same = (same_text_iff (get_static_table_entry i).0 name).0 hit in
                  rw (no_entry, found, emit)
                    (literal_field i (name, value) [] inside h
                      (named_by_table i (name, value) some_index inside same))
              | inl no_name ↦
                  rw (no_entry, no_name, emit)
                    (new_name (encode_string name ++ encode_string value) (
                      literal_field 0 (name, value) (encode_string name) (omega arith) h
                        (named_itself name h.name_sized)))
            ]
    ]

-- And it writes a byte at least.
nonempty : (q k v : ℕ) → k ≤ 8 → 0 < length (encode_prefix_int (q * 2 ^ k) k v)
nonempty q k v small = let (r, tail, below, e) = prefix_int_head q k v small in rw e (omega arith)

pub emit-some_bytes : (e : Bytes × Bytes) → 0 < length (emit e)
unfolding emit
emit-some_bytes (name, value) =
    elim (Option-cases (find_index (same_entry name value) (drop 1 static_table) 1)) [
      | inr (i, found) ↦ rw (found, emit) (nonempty 1 7 i (omega arith))
      | inl no_entry ↦
          elim (Option-cases
            (find_index (λ entry. same_text entry.0 name) (drop 1 static_table) 1)) [
              | inr (i, found) ↦
                  rw (no_entry, found, emit)
                    (omega (
                      arith,
                      nonempty 0 4 i (omega arith),
                      length-append (encode_prefix_int 0 4 i) (encode_string value),
                    ))
              | inl no_name ↦ rw (no_entry, no_name, emit) (omega arith)
            ]
    ]
