-- ===== src/Quic/PnSpace.antt =====
-- example/quic-http3/src/quic/pn_space.cpp and pn_space.hpp: which packet numbers of one space have
-- been received, kept as ranges in descending order, and the ACK frame that reports them.
pub mod Ranges
pub mod Receive
pub mod Insert
pub mod Ack
pub mod Trim
use libspaznet.Base.{
  ltb, leb, ◌==◌, if◌then◌else◌, length, take, sub64, ℕ, ◌+◌, ◌-◌, ◌%◌, ◌^◌, Bool, false, ◌||◌,
  Option, none, some, List, [], ◌∷◌,
}
use libspaznet.Quic.Frame.{AckRange, AckFrame}

-- `struct Range`: the packet numbers from `lo` to `hi`, both included.
pub record Range : Type 0 where
  pub lo : ℕ
  pub hi : ℕ

pub record PnSpace : Type 0 where
  pub ranges : List Range
  pub largest_received : Option ℕ
  pub needs_ack : Bool

abbrev pub initial : PnSpace
initial = record { ranges = []; largest_received = none; needs_ack = false }

abbrev pub k_max_ack_ranges : ℕ
k_max_ack_ranges = 32

-- `a + 1` of `uint64_t`.
abbrev pub succ64 : ℕ → ℕ
succ64 a = (a + 1) % 2 ^ 64

-- `while (it != ranges_.end() && it->hi >= pn)`: `none` is the early return at a range that holds
-- `pn`; otherwise the ranges before `it`, nearest first, and those from `it` on.
unfoldable pub walk : ℕ → List Range → List Range → Option (List Range × List Range)
walk pn before [] = some (before, [])
walk pn before (r ∷ rs) =
    let next = walk pn (r ∷ before) rs in
    if leb pn r.hi then (if leb r.lo pn then none else next) else some (before, r ∷ rs)

-- The vector again, from the two sides of `it`.
unfoldable pub rejoin : List Range → List Range → List Range
rejoin [] rest = rest
rejoin (b ∷ before) rest = rejoin before (b ∷ rest)

-- The higher neighbour grows downward to `pn`, and swallows the next-lower range if that now
-- touches it.
unfoldable pub extend_higher : ℕ → Range → List Range → List Range
extend_higher pn higher [] = record higher { lo = pn } ∷ []
extend_higher pn higher (r ∷ rs) =
    if succ64 r.hi == pn
    then record higher { lo = r.lo } ∷ rs
    else record higher { lo = pn } ∷ r ∷ rs

-- A new range of one number, and the bound on their count: the tail is dropped.
unfoldable pub insert_single : ℕ → List Range → List Range → List Range
insert_single pn before rest =
    let ranges = rejoin before (record { lo = pn; hi = pn } ∷ rest) in
    if ltb k_max_ack_ranges (length ranges) then take k_max_ack_ranges ranges else ranges

-- The lower neighbour grows upward to `pn`, or a new range is inserted.
unfoldable pub extend_lower : ℕ → List Range → List Range → List Range
extend_lower pn before [] = insert_single pn before []
extend_lower pn before (r ∷ rs) =
    if succ64 r.hi == pn
    then rejoin before (record r { hi = pn } ∷ rs)
    else insert_single pn before (r ∷ rs)

unfoldable pub place : ℕ → List Range → List Range → List Range
place pn [] rest = extend_lower pn [] rest
place pn (higher ∷ before) rest =
    if higher.lo == succ64 pn
    then rejoin before (extend_higher pn higher rest)
    else extend_lower pn (higher ∷ before) rest

-- What `on_received` makes of the ranges.
unfoldable pub receive : ℕ → List Range → List Range
receive pn rs = elim (walk pn [] rs) [ none ↦ rs | some (before, rest) ↦ place pn before rest ]

-- `if (!largest_received_ || pn > *largest_received_)`
unfoldable pub raise : ℕ → Option ℕ → Option ℕ
raise pn none = some pn
raise pn (some largest) = if ltb largest pn then some pn else some largest

unfoldable pub on_received : ℕ → Bool → PnSpace → PnSpace
on_received pn ack_eliciting s = record {
  ranges = receive pn s.ranges;
  largest_received = raise pn s.largest_received;
  needs_ack = ack_eliciting || s.needs_ack;
}

-- The loop over `i`: each range against the one before it.
unfoldable pub gaps : Range → List Range → List AckRange
gaps prev [] = []
gaps prev (cur ∷ rs) =
    record { gap = sub64 (sub64 prev.lo cur.hi) 2; length = sub64 cur.hi cur.lo } ∷ gaps cur rs

abbrev pub empty_ack : AckFrame
empty_ack = record {
  largest_acked = 0;
  ack_delay = 0;
  first_range = 0;
  ranges = [];
  ecn = false;
  ect0 = 0;
  ect1 = 0;
  ce = 0;
}

unfoldable pub ack_of : ℕ → List Range → AckFrame
ack_of ack_delay_us [] = empty_ack
ack_of ack_delay_us (front ∷ rs) = record empty_ack {
  largest_acked = front.hi;
  ack_delay = ack_delay_us;
  first_range = sub64 front.hi front.lo;
  ranges = gaps front rs;
}

-- Of no ranges there is nothing to report, and the flag stays.
unfoldable pub still_needed : List Range → Bool → Bool
still_needed [] needs = needs
still_needed (r ∷ rs) needs = false

unfoldable pub build_ack_frame : ℕ → PnSpace → PnSpace × AckFrame
build_ack_frame ack_delay_us s =
    (record s { needs_ack = still_needed s.ranges s.needs_ack }, ack_of ack_delay_us s.ranges)

-- `while (!ranges_.empty() && ranges_.back().hi < pn) ranges_.pop_back();`, on the ranges
-- from the back.
unfoldable pub pop_below : ℕ → List Range → List Range
pop_below pn [] = []
pop_below pn (back ∷ rs) = let rest = pop_below pn rs in if ltb back.hi pn then rest else back ∷ rs

-- `if (!ranges_.empty() && ranges_.back().lo < pn) ranges_.back().lo = pn;`
unfoldable pub clip_back : ℕ → List Range → List Range
clip_back pn [] = []
clip_back pn (back ∷ rs) = if ltb back.lo pn then record back { lo = pn } ∷ rs else back ∷ rs

-- The ranges from the back, and the vector again from those.
unfoldable pub turn : List Range → List Range
turn rs = rejoin rs []

unfoldable pub trim_below : ℕ → PnSpace → PnSpace
trim_below pn s = record s { ranges = turn (clip_back pn (pop_below pn (turn s.ranges))) }

unfoldable pub reset : PnSpace → PnSpace
reset s = initial
