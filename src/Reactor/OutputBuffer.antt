-- ===== src/Reactor/OutputBuffer.antt =====
-- `OutputBuffer` of src/reactor/buffered_connection.cpp: bytes to send, and their way to the socket.
pub mod Sends
pub mod Progress
use libspaznet.Base.{
  ltb, leb, ◌==◌, if◌then◌else◌, Bytes, length, take, drop, ℕ, suc, ◌+◌, ◌-◌, min, List, [], ◌∷◌,
  ◌++◌,
}

pub record OutputBuffer : Type 0 where
  pub buf : Bytes
  pub read_pos : ℕ

abbrev pub empty_output : OutputBuffer
empty_output = record { buf = []; read_pos = 0 }

abbrev pub pending : OutputBuffer → ℕ
pending o = length o.buf - o.read_pos

-- `append(const uint8_t*, std::size_t)`
unfoldable pub append_copy : Bytes → OutputBuffer → OutputBuffer
append_copy bytes o =
    if length bytes == 0
    then o
    else if leb (length o.buf) o.read_pos
    then record { buf = bytes; read_pos = 0 }
    else record o { buf = o.buf ++ bytes }

-- `append(std::vector<uint8_t>)`
unfoldable pub append : Bytes → OutputBuffer → OutputBuffer
append bytes o =
    if length bytes == 0
    then o
    else if leb (length o.buf) o.read_pos
    then record { buf = bytes; read_pos = 0 }
    else append_copy bytes o

-- What `send` answers, for a call with at least a byte: it takes `1 + more` bytes, or as many as it
-- was given; none; or it fails, with an error that says to try again or with another.
pub data SendAnswer : Type 0 where
  accepted : (more : ℕ) → SendAnswer
  nothing retry broken : SendAnswer

pub data Result : Type 0 where
  flushed would_block error : Result

-- The buffer that `try_flush` leaves, and the bytes that the socket has taken so far.
pub record Flush : Type 0 where
  pub result : Result
  pub output : OutputBuffer
  pub wire : Bytes

abbrev pub stop : Result → OutputBuffer → Bytes → Flush
stop result o wire = record { result = result; output = o; wire = wire }

-- The loop of `try_flush(int)`. The answers are those of its calls of `send`, in order; a socket
-- that has no more of them says to try again.
unfoldable pub try_flush : List SendAnswer → OutputBuffer → Bytes → Flush
try_flush [] o wire =
    if ltb o.read_pos (length o.buf)
    then stop would_block o wire
    else stop flushed empty_output wire
try_flush (accepted more ∷ rest) o wire =
    let n = min (suc more) (pending o) in
    let later =
      try_flush rest (record o { read_pos = o.read_pos + n })
        (wire ++ take n (drop o.read_pos o.buf)) in
    if ltb o.read_pos (length o.buf) then later else stop flushed empty_output wire
try_flush (nothing ∷ rest) o wire =
    if ltb o.read_pos (length o.buf)
    then stop would_block o wire
    else stop flushed empty_output wire
try_flush (retry ∷ rest) o wire =
    if ltb o.read_pos (length o.buf)
    then stop would_block o wire
    else stop flushed empty_output wire
try_flush (broken ∷ rest) o wire =
    if ltb o.read_pos (length o.buf) then stop error o wire else stop flushed empty_output wire
