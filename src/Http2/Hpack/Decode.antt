-- ===== src/Http2/Hpack/Decode.antt =====
-- `HPACK::decode_headers`.
pub mod Ends
use libspaznet.Base.{
  ltb, leb, ◌==◌, if◌then◌else◌, Bytes, length, get_or, ℕ, zero, suc, bit_and, not, ◌||◌, Option,
  none, some, [], ◌∷◌,
}
use libspaznet.Wire.Reader.{Reader, return, fail, ◌>>=◌}
use libspaznet.Utils.Header.{Headers, same_text}
use libspaznet.Http2.Hpack.{
  get_static_table_entry, get_static_table_size, decode_prefix_int, decode_string,
}

-- `headers[name] = value`
unfoldable pub assign : Bytes → Bytes → Headers → Headers
assign name value [] = (name, value) ∷ []
assign name value ((k, v) ∷ rest) =
    let later = assign name value rest in
    if same_text k name then (k, value) ∷ rest else (k, v) ∷ later

-- One round of `decode_headers`: `none` is a `break`; else what is to be assigned, if anything is.
unfoldable pub indexed : Reader (Option (Bytes × Bytes))
indexed = do
  index ← decode_prefix_int 7
  return (
      if index == 0 || leb get_static_table_size index
      then none
      else some (get_static_table_entry index))

unfoldable pub read_name : ℕ → Reader Bytes
read_name index =
    if index == 0
    then decode_string
    else return (if ltb index get_static_table_size then (get_static_table_entry index).0 else [])

unfoldable pub literal : ℕ → Reader (Option (Bytes × Bytes))
literal prefix_bits = do
  index ← decode_prefix_int prefix_bits
  name ← read_name index
  value ← decode_string
  return (if length name == 0 then none else some (name, value))

unfoldable pub size_update : Reader (Option (Bytes × Bytes))
size_update = do new_size ← decode_prefix_int 5; return none

-- The dispatch on the first byte.
unfoldable pub field_of : ℕ → Reader (Option (Bytes × Bytes))
field_of b =
    if not (bit_and b 0x80 == 0)
    then indexed
    else if bit_and b 0xC0 == 0x40
    then literal 6
    else if bit_and b 0xE0 == 0x20
    then size_update
    else if (bit_and b 0xF0 == 0x00) || (bit_and b 0xF0 == 0x10)
    then literal 4
    else fail

unfoldable pub field : Reader (Option (Bytes × Bytes))
field bytes offset = field_of (get_or bytes offset 0) bytes offset

abbrev pub store : Option (Bytes × Bytes) → Headers → Headers
store none headers = headers
store (some (name, value)) headers = assign name value headers

-- `none` is no answer of the source: the rounds ran out.
unfoldable pub decode_loop : ℕ → Bytes → ℕ → Headers → Option Headers
decode_loop zero bytes offset headers = if ltb offset (length bytes) then none else some headers
decode_loop (suc fuel) bytes offset headers =
    if ltb offset (length bytes)
    then (elim (field bytes offset) [
      | none ↦ some headers
      | some (entry, offset') ↦ decode_loop fuel bytes offset' (store entry headers)
    ])
    else some headers

unfoldable pub decode_headers : Bytes → Option Headers
decode_headers bytes = decode_loop (length bytes) bytes 0 []
