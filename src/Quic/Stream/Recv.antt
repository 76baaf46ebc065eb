-- ===== src/Quic/Stream/Recv.antt =====
-- The receive side of example/quic-http3/src/quic/stream.cpp: `deliver`, `read_contiguous`,
-- `set_recv_limit` and `reset_recvd`. The `std::map` from offsets to chunks is a list in the order of
-- the offsets.
pub mod Reassembly
pub mod InOrder
pub mod Coverage
pub mod Delivered
pub mod Flow
use libspaznet.Base.{
  ltb, leb, ◌==◌, if◌then◌else◌, Bytes, length, drop, add64, sub64, ℕ, max, Bool, true, false, not,
  ◌&&◌, ◌||◌, Option, none, some, List, [], ◌∷◌, ◌++◌,
}

pub data RecvState : Type 0 where
  recv size_known data_recvd data_read reset_recvd reset_read : RecvState

-- The members `recv_*_` (with the prefix left out) and `reset_error_`.
pub record RecvSide : Type 0 where
  pub chunks : List (ℕ × Bytes)
  pub read_offset : ℕ
  pub high_water : ℕ
  pub limit : ℕ
  pub final_size : Option ℕ
  pub reset_error : Option ℕ
  pub state : RecvState

abbrev pub no_data_received : ℕ → RecvSide
no_data_received initial_max_recv = record {
  chunks = [];
  read_offset = 0;
  high_water = 0;
  limit = initial_max_recv;
  final_size = none;
  reset_error = none;
  state = RecvState.recv;
}

unfoldable pub is_reset : RecvState → Bool
is_reset RecvState.recv = false
is_reset RecvState.size_known = false
is_reset RecvState.data_recvd = false
is_reset RecvState.data_read = false
is_reset RecvState.reset_recvd = true
is_reset RecvState.reset_read = true

-- The offset behind a chunk.
abbrev pub end_of : ℕ → Bytes → ℕ
end_of k c = add64 k (length c)

-- What a chunk takes over from the next one, which starts inside it or right behind it: the bytes
-- past its own end.
unfoldable pub absorb : ℕ → Bytes → ℕ → Bytes → Bytes
absorb k c n d =
    if ltb (end_of k c) (end_of n d)
    then c ++ drop (sub64 (length d) (sub64 (end_of n d) (end_of k c))) d
    else c

-- Merge forward: the chunk and those that it touches.
unfoldable pub merge : ℕ → Bytes → List (ℕ × Bytes) → List (ℕ × Bytes)
merge k c [] = (k, c) ∷ []
merge k c ((n, d) ∷ rest) =
    let merged = merge k (absorb k c n d) rest in
    if leb n (end_of k c) then merged else (k, c) ∷ (n, d) ∷ rest

-- `emplace`, which leaves a chunk that starts there as it is, and the merge.
unfoldable pub emplace : ℕ → Bytes → List (ℕ × Bytes) → List (ℕ × Bytes)
emplace off bytes [] = (off, bytes) ∷ []
emplace off bytes ((n, d) ∷ rest) =
    if n == off then merge n d rest else merge off bytes ((n, d) ∷ rest)

-- The chunk immediately before, and those from `it` on.
unfoldable pub put_behind : ℕ → Bytes → ℕ → Bytes → List (ℕ × Bytes) → List (ℕ × Bytes)
put_behind off bytes k c rest =
    if leb off (end_of k c)
    then (if leb (add64 off (length bytes)) (end_of k c)
        then (k, c) ∷ rest
        else merge k (c ++ drop (sub64 (end_of k c) off) bytes) rest)
    else (k, c) ∷ emplace off bytes rest

-- `lower_bound(put_off)`: on to the last chunk that starts before.
unfoldable pub put_after : ℕ → Bytes → ℕ → Bytes → List (ℕ × Bytes) → List (ℕ × Bytes)
put_after off bytes k c [] = put_behind off bytes k c []
put_after off bytes k c ((n, d) ∷ rest) =
    let further = put_after off bytes n d rest in
    if ltb n off then (k, c) ∷ further else put_behind off bytes k c ((n, d) ∷ rest)

unfoldable pub put : ℕ → Bytes → List (ℕ × Bytes) → List (ℕ × Bytes)
put off bytes [] = emplace off bytes []
put off bytes ((n, d) ∷ rest) =
    if ltb n off then put_after off bytes n d rest else emplace off bytes ((n, d) ∷ rest)

-- `if (!put_data.empty())`
unfoldable pub put_some : ℕ → Bytes → List (ℕ × Bytes) → List (ℕ × Bytes)
put_some off [] chunks = chunks
put_some off (b ∷ bytes) chunks = put off (b ∷ bytes) chunks

-- Without the prefix that is read already: `drop >= size` leaves nothing.
unfoldable pub trim_put : ℕ → ℕ → Bytes → List (ℕ × Bytes) → List (ℕ × Bytes)
trim_put read_offset off bytes chunks =
    if ltb off read_offset
    then put_some read_offset (drop (sub64 read_offset off) bytes) chunks
    else put_some off bytes chunks

-- `recv_final_size_ && (end > *recv_final_size_ || (fin && end != *recv_final_size_))`
unfoldable pub breaks_final_size : ℕ → Bool → Option ℕ → Bool
breaks_final_size end fin none = false
breaks_final_size end fin (some size) = ltb size end || (fin && not (end == size))

unfoldable pub size_learned : RecvState → RecvState
size_learned RecvState.recv = RecvState.size_known
size_learned other = other

-- The transitions of a stream whose final size is known.
unfoldable pub settle : ℕ → ℕ → List (ℕ × Bytes) → RecvState → RecvState
settle size read_offset [] state =
    if read_offset == size then RecvState.data_read else size_learned state
settle size read_offset ((k, c) ∷ []) state =
    if (k == read_offset) && (end_of k c == size) then RecvState.data_recvd else size_learned state
settle size read_offset (a ∷ b ∷ rest) state = size_learned state

unfoldable pub advance : RecvSide → RecvSide
advance r = record r {
  state = elim r.final_size [
    | none ↦ r.state
    | some size ↦ settle size r.read_offset r.chunks r.state
  ];
}

-- The body of `deliver` behind its two checks.
unfoldable pub accept : ℕ → Bytes → Bool → RecvSide → RecvSide
accept offset bytes fin r =
    let end = add64 offset (length bytes) in
    advance (record r {
      final_size = if fin then some end else r.final_size;
      high_water = if ltb r.high_water end then end else r.high_water;
      chunks = trim_put r.read_offset offset bytes r.chunks;
    })

-- `none` is false; nothing has changed then.
unfoldable pub deliver : ℕ → Bytes → Bool → RecvSide → Option RecvSide
deliver offset bytes fin r =
    let end = add64 offset (length bytes) in
    if is_reset r.state
    then some r
    else if ltb r.limit end
    then none
    else if breaks_final_size end fin r.final_size
    then none
    else some (accept offset bytes fin r)

-- `recv_final_size_ && recv_read_offset_ == *recv_final_size_`
unfoldable pub at_end : RecvSide → Bool
at_end r = elim r.final_size [ none ↦ false | some size ↦ r.read_offset == size ]

unfoldable pub note_read : RecvSide → RecvSide
note_read r = record r { state = if at_end r then RecvState.data_read else r.state }

-- The side afterwards, what is appended to `out`, and `fin_out`; the count is the length.
unfoldable pub read_chunks : List (ℕ × Bytes) → RecvSide → RecvSide × Bytes × Bool
read_chunks [] r = (note_read r, [], at_end r)
read_chunks ((k, c) ∷ rest) r =
    let moved = record r { read_offset = add64 r.read_offset (length c); chunks = rest } in
    if k == r.read_offset then (note_read moved, c, at_end moved) else (r, [], false)

unfoldable pub read_contiguous : RecvSide → RecvSide × Bytes × Bool
read_contiguous r = read_chunks r.chunks r

unfoldable pub set_recv_limit : ℕ → RecvSide → RecvSide × Bool
set_recv_limit new_limit r =
    if leb new_limit r.limit then (r, false) else (record r { limit = new_limit }, true)

-- `recv_final_size_ && *recv_final_size_ != final_size`
unfoldable pub other_size : ℕ → Option ℕ → Bool
other_size size none = false
other_size size (some known) = not (known == size)

unfoldable pub after_reset : ℕ → ℕ → RecvSide → RecvSide
after_reset final_size app_error r = record r {
  final_size = some final_size;
  high_water = max r.high_water final_size;
  reset_error = some app_error;
  state = RecvState.reset_recvd;
  chunks = [];
}

-- `Stream::reset_recvd`; `none` is false, and nothing has changed then.
unfoldable pub take_reset : ℕ → ℕ → RecvSide → Option RecvSide
take_reset final_size app_error r =
    if other_size final_size r.final_size
    then none
    else if ltb r.limit final_size
    then none
    else some (after_reset final_size app_error r)
