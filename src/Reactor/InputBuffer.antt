-- ===== src/Reactor/InputBuffer.antt =====
-- `InputBuffer` of src/reactor/buffered_connection.cpp: bytes received and not yet consumed.
pub mod View
use libspaznet.Base.{
  ltb, ◌==◌, if◌then◌else◌, Bytes, length, take, drop, replicate, ℕ, ◌+◌, ◌-◌, min, ◌&&◌, [], ◌++◌,
}

pub record InputBuffer : Type 0 where
  pub buf : Bytes
  pub read_pos : ℕ
  pub write_pos : ℕ

abbrev pub empty_input : InputBuffer
empty_input = record { buf = []; read_pos = 0; write_pos = 0 }

-- `memmove` of the bytes that are left to the front; those behind stay as they are.
unfoldable pub compact : InputBuffer → InputBuffer
compact b =
    let remaining = b.write_pos - b.read_pos in
    record {
      buf = take remaining (drop b.read_pos b.buf) ++ drop remaining b.buf;
      read_pos = 0;
      write_pos = remaining;
    }

unfoldable pub compact_if : ℕ → InputBuffer → InputBuffer
compact_if min_capacity b =
    if ltb 0 b.read_pos && ltb (length b.buf - b.write_pos) min_capacity then compact b else b

-- `resize` to a larger size.
unfoldable pub grow : ℕ → InputBuffer → InputBuffer
grow min_capacity b =
    if ltb (length b.buf - b.write_pos) min_capacity
    then record b { buf = b.buf ++ replicate (b.write_pos + min_capacity - length b.buf) 0 }
    else b

-- The span that `prepare` returns is what lies behind `write_pos`.
unfoldable pub prepare : ℕ → InputBuffer → InputBuffer
prepare min_capacity b = grow min_capacity (compact_if min_capacity b)

abbrev pub room : InputBuffer → ℕ
room b = length b.buf - b.write_pos

-- What `recv` does to the span: it writes as many bytes as it has, or as there is room for.
unfoldable pub fill : Bytes → InputBuffer → InputBuffer
fill bytes b =
    let n = length bytes in
    record b { buf = take b.write_pos b.buf ++ (bytes ++ drop (b.write_pos + n) b.buf) }

unfoldable pub commit : ℕ → InputBuffer → InputBuffer
commit n b = record b { write_pos = b.write_pos + n }

unfoldable pub consume : ℕ → InputBuffer → InputBuffer
consume n b =
    let read_pos' = b.read_pos + min n (b.write_pos - b.read_pos) in
    if read_pos' == b.write_pos
    then record b { read_pos = 0; write_pos = 0 }
    else record b { read_pos = read_pos' }

abbrev pub size : InputBuffer → ℕ
size b = b.write_pos - b.read_pos

-- `data()`
unfoldable pub contents : InputBuffer → Bytes
contents b = take (b.write_pos - b.read_pos) (drop b.read_pos b.buf)

-- A read: `prepare`, what `recv` put into the span, `commit`.
unfoldable pub receive : ℕ → Bytes → InputBuffer → InputBuffer
receive min_capacity bytes b =
    let b' = prepare min_capacity b in
    let got = take (room b') bytes in commit (length got) (fill got b')
