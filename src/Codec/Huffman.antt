-- ===== src/Codec/Huffman.antt =====
-- src/codec/huffman.cpp: the Huffman code of RFC 7541, Appendix B.
pub mod Table
pub mod Bits
pub mod Paths
pub mod RoundTrip
use libspaznet.Base.{
  ltb, ◌==◌, if◌then◌else◌, Bytes, length, get_or, ℕ, zero, suc, ◌+◌, ◌-◌, ◌*◌, ◌/◌, ◌%◌, ◌^◌,
  bit_or, sym, Option, none, some, List, [], ◌∷◌, ◌++◌,
}
use libspaznet.Codec.Huffman.Table.{table}

-- Code and number of bits of a symbol.
abbrev pub code_of : ℕ → ℕ
code_of symbol = (get_or table symbol (0, 0)).0

abbrev pub bits_of : ℕ → ℕ
bits_of symbol = (get_or table symbol (0, 0)).1

unfoldable pub count_bits : Bytes → ℕ
count_bits [] = 0
count_bits (ch ∷ rest) = bits_of ch + count_bits rest

unfoldable pub huffman_encoded_size : Bytes → ℕ
huffman_encoded_size input = (count_bits input + 7) / 8

-- `while (held >= 8)`: the bytes, and `held` after them. `buf` is a `uint64_t`.
unfoldable pub flush : ℕ → ℕ → ℕ → Bytes × ℕ
flush zero buf held = ([], held)
flush (suc fuel) buf held =
    let rest = flush fuel buf (held - 8) in
    if ltb held 8 then ([], held) else (buf / 2 ^ (held - 8) % 256 ∷ rest.0, rest.1)

-- The loop over the input, then the padding. A round adds at most 30 bits to 7 held ones, so that
-- four rounds of `flush` are enough.
unfoldable pub encode_from : Bytes → ℕ → ℕ → Bytes
encode_from [] buf held =
    if held == 0 then [] else bit_or (buf * 2 ^ (8 - held) % 2 ^ 64) (2 ^ (8 - held) - 1) % 256 ∷ []
encode_from (ch ∷ rest) buf held =
    let buf' = bit_or (buf * 2 ^ bits_of ch % 2 ^ 64) (code_of ch) in
    let (bytes, held') = flush 5 buf' (held + bits_of ch) in bytes ++ encode_from rest buf' held'

-- `huffman_encode`: what it appends to `out`.
unfoldable pub huffman_encode : Bytes → Bytes
huffman_encode input = encode_from input 0 0

-- `DecNode`; an index or a symbol of -1 is `none`.
pub record DecNode : Type 0 where
  pub child0 : Option ℕ
  pub child1 : Option ℕ
  pub symbol : Option ℕ

abbrev pub fresh_node : DecNode
fresh_node = record { child0 = none; child1 = none; symbol = none }

abbrev pub Nodes : Type 0
Nodes = List DecNode

unfoldable pub change : Nodes → ℕ → (DecNode → DecNode) → Nodes
change [] i f = []
change (x ∷ xs) zero f = f x ∷ xs
change (x ∷ xs) (suc i) f = x ∷ change xs i f

abbrev pub step : Nodes → ℕ → ℕ → Option ℕ
step nodes node bit =
    if bit == 0
    then (get_or nodes node fresh_node).child0
    else (get_or nodes node fresh_node).child1

abbrev pub symbol_at : Nodes → ℕ → Option ℕ
symbol_at nodes node = (get_or nodes node fresh_node).symbol

abbrev pub set_child : ℕ → ℕ → DecNode → DecNode
set_child bit next n =
    if bit == 0 then record n { child0 = some next } else record n { child1 = some next }

-- The loop of `HuffTree::insert` with `left` bits to go, and the leaf it ends with.
unfoldable pub insert : Nodes → ℕ → ℕ → ℕ → ℕ → Nodes
insert nodes sym code zero cur = change nodes cur (λ n. record n { symbol = some sym })
insert nodes sym code (suc left) cur =
    let bit = code / 2 ^ left % 2 in
    elim (step nodes cur bit) [
      | some next ↦ insert nodes sym code left next
      | none ↦
          let next = length nodes in
          insert (change (nodes ++ fresh_node ∷ []) cur (set_child bit next)) sym code left next
    ]

unfoldable pub insert_all : Nodes → List (ℕ × ℕ) → ℕ → Nodes
insert_all nodes [] sym = nodes
insert_all nodes ((code, bits) ∷ rest) sym =
    insert_all (insert nodes sym code bits 0) rest (sym + 1)

-- `HuffTree::HuffTree`
unfoldable pub tree : Nodes
tree = insert_all (fresh_node ∷ []) table 0

-- The locals of `huffman_decode`; `any_emit_since_start` is written and never read.
pub record Walk : Type 0 where
  pub node : ℕ
  pub bit_count : ℕ
  pub pad_start_node : ℕ
  pub pad_start_bit : ℕ
  pub out : Bytes

-- What a symbol does at the node that was reached.
unfoldable pub arrive : ℕ → Option ℕ → Walk → Option Walk
arrive next none w = some (record w { node = next; bit_count = w.bit_count + 1 })
arrive next (some sym) w =
    if sym == 256
    then none
    else some (record {
      node = 0;
      bit_count = w.bit_count + 1;
      pad_start_node = 0;
      pad_start_bit = w.bit_count + 1;
      out = w.out ++ (sym % 256) ∷ [];
    })

unfoldable pub take_bit : Nodes → ℕ → Walk → Option Walk
take_bit t bit w = elim (step t w.node bit) [
  | none ↦ none
  | some next ↦ arrive next (symbol_at t next) w
]

-- `for (int j = 7; j >= 0; --j)`, with `j` rounds to go.
unfoldable pub take_bits : Nodes → ℕ → ℕ → Walk → Option Walk
take_bits t b zero w = some w
take_bits t b (suc j) w = elim (take_bit t (b / 2 ^ j % 2) w) [
  | none ↦ none
  | some w' ↦ take_bits t b j w'
]

unfoldable pub take_all : Nodes → Bytes → Walk → Option Walk
take_all t [] w = some w
take_all t (b ∷ rest) w = elim (take_bits t b 8 w) [ none ↦ none | some w' ↦ take_all t rest w' ]

-- Along `n` bits 1.
unfoldable pub along_ones : Nodes → ℕ → ℕ → Option ℕ
along_ones t zero check = some check
along_ones t (suc n) check = elim (step t check 1) [ none ↦ none | some next ↦ along_ones t n next ]

-- The final padding.
unfoldable pub finish : Nodes → Walk → Option Bytes
finish t w =
    if w.node == 0
    then some w.out
    else if ltb 7 (w.bit_count - w.pad_start_bit)
    then none
    else (elim (along_ones t (w.bit_count - w.pad_start_bit) w.pad_start_node) [
      | none ↦ none
      | some check ↦ if check == w.node then some w.out else none
    ])

abbrev pub start : Walk
start = record { node = 0; bit_count = 0; pad_start_node = 0; pad_start_bit = 0; out = [] }

unfoldable pub huffman_decode : Bytes → Option Bytes
huffman_decode input = elim (take_all tree input start) [ none ↦ none | some w ↦ finish tree w ]
