-- ===== src/Quic/Stream/Send.antt =====
-- The send side of example/quic-http3/src/quic/stream.cpp: `write`, `pull_send`, `on_acked`, `on_lost`
-- and `set_send_limit`. An iterator into `send_buf_` is its index.
pub mod Buffer
pub mod Acked
pub mod Known
pub mod Pull
use libspaznet.Base.{
  ltb, leb, ◌==◌, if◌then◌else◌, Bytes, length, take, drop, add64, sub64, ℕ, ◌-◌, ◌*◌, min, Bool,
  true, false, not, ◌&&◌, ◌||◌, Option, none, some, List, [], ◌∷◌, ◌++◌,
}
use libspaznet.Wire.Reader.{slice}

pub data SendState : Type 0 where
  ready send data_sent data_recvd reset_sent reset_recvd : SendState

-- The members `send_*_` (with the prefix left out), `acked_ranges_` and `lost_ranges_`.
pub record SendSide : Type 0 where
  pub buf : Bytes
  pub buf_head : ℕ
  pub buf_base_offset : ℕ
  pub next_offset : ℕ
  pub high_water : ℕ
  pub limit : ℕ
  pub fin_queued : Bool
  pub fin_sent : Bool
  pub fin_acked : Bool
  pub acked_ranges : List (ℕ × ℕ)
  pub lost_ranges : List (ℕ × ℕ)
  pub state : SendState

abbrev pub no_data_sent : ℕ → SendSide
no_data_sent initial_max_send = record {
  buf = [];
  buf_head = 0;
  buf_base_offset = 0;
  next_offset = 0;
  high_water = 0;
  limit = initial_max_send;
  fin_queued = false;
  fin_sent = false;
  fin_acked = false;
  acked_ranges = [];
  lost_ranges = [];
  state = SendState.ready;
}

-- The states in which `write` takes no more.
unfoldable pub is_closed : SendState → Bool
is_closed SendState.ready = false
is_closed SendState.send = false
is_closed SendState.data_sent = true
is_closed SendState.data_recvd = true
is_closed SendState.reset_sent = true
is_closed SendState.reset_recvd = true

-- `if (send_state_ == SendState::Ready) send_state_ = SendState::Send;`
unfoldable pub started : SendState → SendState
started SendState.ready = SendState.send
started other = other

unfoldable pub write : Bytes → Bool → SendSide → SendSide
write bytes fin s = if is_closed s.state then s else record s {
  buf = s.buf ++ bytes;
  high_water = add64 s.high_water (length bytes);
  fin_queued = fin || s.fin_queued;
  state = started s.state;
}

-- What `pull_send` returns and writes through its references; `offset_out` is `none` where it is
-- not written.
pub record Pulled : Type 0 where
  pub taken : ℕ
  pub offset_out : Option ℕ
  pub data_out : Bytes
  pub fin_out : Bool

abbrev pub nothing : Pulled
nothing = record { taken = 0; offset_out = none; data_out = []; fin_out = false }

-- The bytes of the buffer at an offset of the stream.
unfoldable pub at_offset : SendSide → ℕ → ℕ → Bytes
at_offset s offset size = slice s.buf (add64 s.buf_head (sub64 offset s.buf_base_offset)) size

-- `if (send_state_ == SendState::Send) send_state_ = SendState::DataSent;`
unfoldable pub all_sent : SendState → SendState
all_sent SendState.send = SendState.data_sent
all_sent other = other

unfoldable pub send_fin : SendSide → SendSide
send_fin s = record s { fin_sent = true; state = all_sent s.state }

-- The first lost range, as much of it as `max_bytes` allows; the rest stays in front.
unfoldable pub retransmit : ℕ → ℕ × ℕ → List (ℕ × ℕ) → SendSide → SendSide × Pulled
retransmit max_bytes (first, second) rest s =
    let take = min max_bytes second in
    let fin = s.fin_queued && add64 first take == s.high_water in
    (
      record s {
        fin_sent = fin || s.fin_sent;
        lost_ranges = if take == second then rest else (add64 first take, second - take) ∷ rest;
      },
      record {
        taken = take;
        offset_out = some first;
        data_out = at_offset s first take;
        fin_out = fin;
      },
    )

-- No fresh bytes can be sent, but perhaps the FIN.
unfoldable pub fin_only : SendSide → SendSide × Pulled
fin_only s =
    if (s.fin_queued && not s.fin_sent) && s.next_offset == s.high_water
    then (send_fin s, record nothing { offset_out = some s.next_offset; fin_out = true })
    else (s, nothing)

-- `take` fresh bytes from `send_next_offset_` on.
unfoldable pub send_fresh : ℕ → SendSide → SendSide × Pulled
send_fresh take s =
    let moved = record s { next_offset = add64 s.next_offset take } in
    let fin = (s.fin_queued && moved.next_offset == s.high_water) && not s.fin_sent in
    (
      if fin then send_fin moved else moved,
      record {
        taken = take;
        offset_out = some s.next_offset;
        data_out = at_offset s s.next_offset take;
        fin_out = fin;
      },
    )

-- `std::min<uint64_t>({max_bytes, window, avail, max_fresh})`
abbrev pub fresh_size : ℕ → ℕ → SendSide → ℕ
fresh_size max_bytes max_fresh s =
    min (min (min max_bytes (sub64 s.limit s.next_offset)) (sub64 s.high_water s.next_offset))
      max_fresh

unfoldable pub pull_fresh : ℕ → ℕ → SendSide → SendSide × Pulled
pull_fresh max_bytes max_fresh s =
    let take = fresh_size max_bytes max_fresh s in
    if leb s.limit s.next_offset || take == 0 then fin_only s else send_fresh take s

unfoldable pub pull_from : List (ℕ × ℕ) → ℕ → ℕ → SendSide → SendSide × Pulled
pull_from [] max_bytes max_fresh s = pull_fresh max_bytes max_fresh s
pull_from (r ∷ rest) max_bytes max_fresh s = retransmit max_bytes r rest s

unfoldable pub pull_send : ℕ → ℕ → SendSide → SendSide × Pulled
pull_send max_bytes max_fresh s =
    if max_bytes == 0 then (s, nothing) else pull_from s.lost_ranges max_bytes max_fresh s

-- `std::sort` of pairs: in the order of their first numbers, then of their second ones.
abbrev pub before : ℕ × ℕ → ℕ × ℕ → Bool
before (a, b) (c, d) = ltb a c || ((a == c) && leb b d)

unfoldable pub insert_sorted : ℕ × ℕ → List (ℕ × ℕ) → List (ℕ × ℕ)
insert_sorted r [] = r ∷ []
insert_sorted r (x ∷ xs) = if before r x then r ∷ x ∷ xs else x ∷ insert_sorted r xs

unfoldable pub sort : List (ℕ × ℕ) → List (ℕ × ℕ)
sort [] = []
sort (r ∷ rs) = insert_sorted r (sort rs)

-- `while (!acked_ranges_.empty() && acked_ranges_.front().first == send_buf_base_offset_)`
unfoldable pub release : List (ℕ × ℕ) → SendSide → SendSide
release [] s = record s { acked_ranges = [] }
release ((first, second) ∷ rest) s =
    let next = release rest (record s {
      buf_head = add64 s.buf_head second;
      buf_base_offset = add64 s.buf_base_offset second;
    }) in
    if first == s.buf_base_offset then next else record s { acked_ranges = (first, second) ∷ rest }

abbrev pub k_compact_threshold : ℕ
k_compact_threshold = 8 * 1024

-- The live tail moves to the front.
unfoldable pub compact : SendSide → SendSide
compact s =
    if ltb k_compact_threshold s.buf_head || ltb (length s.buf) (s.buf_head * 2)
    then record s { buf = drop s.buf_head s.buf; buf_head = 0 }
    else s

unfoldable pub acked_state : SendState → Bool → SendState
acked_state SendState.data_sent drained =
    if drained then SendState.data_recvd else SendState.data_sent
acked_state other drained = other

unfoldable pub try_advance_send_state_after_ack : SendSide → SendSide
try_advance_send_state_after_ack s = record s {
  state = acked_state s.state ((length s.buf == s.buf_head) && s.fin_acked);
}

-- A pure FIN was acknowledged.
unfoldable pub on_fin_acked : SendSide → SendSide
on_fin_acked s =
    if s.fin_sent then try_advance_send_state_after_ack (record s { fin_acked = true }) else s

unfoldable pub note_fin_acked : ℕ → SendSide → SendSide
note_fin_acked end s = record s { fin_acked = (s.fin_sent && leb s.high_water end) || s.fin_acked }

unfoldable pub on_acked : ℕ → ℕ → SendSide → SendSide
on_acked offset size s =
    if size == 0
    then on_fin_acked s
    else try_advance_send_state_after_ack (
        note_fin_acked (add64 offset size)
          (compact (release (sort (s.acked_ranges ++ (offset, size) ∷ [])) s)))

unfoldable pub on_lost : ℕ → ℕ → SendSide → SendSide
on_lost offset size s = record s {
  lost_ranges = if ltb 0 size then s.lost_ranges ++ (offset, size) ∷ [] else s.lost_ranges;
  fin_sent = s.fin_sent && not (leb s.high_water (add64 offset size));
}

unfoldable pub set_send_limit : ℕ → SendSide → SendSide
set_send_limit new_limit s = record s {
  limit = if ltb s.limit new_limit then new_limit else s.limit;
}

unfoldable pub send_buffer_size : SendSide → ℕ
send_buffer_size s = sub64 (length s.buf) s.buf_head
