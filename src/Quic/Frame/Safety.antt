-- ===== src/Quic/Frame/Safety.antt =====
-- `parse_frame` never leaves the payload, and `parse_frames` ends on every payload.
use libspaznet.Base.{
  ltb, leb, ◌==◌, Bool-cases, Option-cases, Bytes, length, ℕ, zero, suc, ◌+◌, ◌-◌, ◌≤◌, ◌<◌, ◌≡◌,
  ◌≢◌, inl, inr, Bool, true, false, not, some, List, [], ◌∷◌, ◌++◌, arith,
}
use libspaznet.Wire.Reader.{Reader, return, ◌>>=◌, read_bytes}
use libspaznet.Wire.Safe.{
  Safe, Any, Safe-bind, Safe-return, Safe-guard, Safe-read_byte, Safe-read_bytes, Safe-remaining,
  Safe-read_many, IsBuffer, IsSize, bind-eq-some, Safe-weaken,
}
use libspaznet.Quic.VarInt.{k_max, decode as read_varint}
use libspaznet.Quic.VarInt.Bounds.{decode_bounds}
use libspaznet.Quic.Frame.{Frame, code_of, FrameType}
use libspaznet.Quic.Frame.Encodable.{IsVarint}
use libspaznet.Quic.Frame.Parse.{
  skip_zeros, parse_padding, parse_ack_range, parse_ecn, parse_ack, parse_reset_stream,
  parse_stop_sending, parse_crypto, parse_new_token, read_if, parse_stream, parse_max_data,
  parse_max_stream_data, parse_max_streams, parse_data_blocked, parse_stream_data_blocked,
  parse_streams_blocked, parse_new_connection_id, parse_retire_connection_id, parse_path,
  parse_connection_close, parse_control, parse_body, read_length, parse_frames, parse_frame,
  parse_loop, stuck,
}

pub Safe-IsVarint : Safe read_varint IsVarint
Safe-IsVarint buf off v off' hb lo e =
    let (small, moved, near, inside) = decode_bounds buf off v off' hb e in
    (small, ground arith, inside)

-- A read of a number, then what depends on it.
then_varint {ℓ} :
    {B : Type ℓ} (f : ℕ → Reader B)
    → ((v : ℕ) → v ≤ k_max → Safe (f v) Any)
    → Safe (read_varint >>= f) Any
then_varint f h = Safe-bind read_varint f Safe-IsVarint h

then_bytes {ℓ} :
    {B : Type ℓ} (n : ℕ) (f : Bytes → Reader B)
    → IsSize n
    → ((bs : Bytes) → Safe (f bs) Any)
    → Safe (read_bytes n >>= f) Any
then_bytes n f small h = Safe-bind _ f (Safe-read_bytes n small) (λ bs _. h bs)

answer {ℓ} : {B : Type ℓ} (b : B) → Safe (return b) Any
answer b = Safe-return Any b tt

read_if-Safe : (b : Bool) → Safe (read_if b) IsVarint
unfolding read_if
read_if-Safe true = Safe-IsVarint
read_if-Safe false = Safe-return IsVarint 0 (omega arith)

read_length-Safe : (b : Bool) → Safe (read_length b) IsSize
unfolding read_length
read_length-Safe true = Safe-weaken read_varint (λ n h. omega arith) Safe-IsVarint
read_length-Safe false = Safe-remaining

zeros-Safe :
    (fuel : ℕ) (buf : Bytes) (off count : ℕ)
    → off ≤ length buf
    → (off ≤ (skip_zeros fuel buf off count).1) × ((skip_zeros fuel buf off count).1 ≤ length buf)
unfolding skip_zeros
zeros-Safe zero buf off count h = (omega arith, h)
zeros-Safe (suc fuel) buf off count h = ground (arith, zeros-Safe fuel buf (off + 1) (count + 1))

padding-Safe : Safe parse_padding Any
unfolding parse_padding
padding-Safe buf off a off' hb lo e = ground (arith, zeros-Safe (length buf - off) buf off 1 lo)

range-Safe : Safe parse_ack_range Any
unfolding parse_ack_range
range-Safe = then_varint _ λ gap _. then_varint _ λ size _. answer _

ecn-Safe : (ecn : Bool) → Safe (parse_ecn ecn) Any
unfolding parse_ecn
ecn-Safe false = answer _
ecn-Safe true = then_varint _ λ a _. then_varint _ λ b _. then_varint _ λ c _. answer _

ack-Safe : (ecn : Bool) → Safe (parse_ack ecn) Any
unfolding parse_ack
ack-Safe ecn = then_varint _ λ largest _. then_varint _ λ delay _. then_varint _ λ count _.
    then_varint _ λ first _. Safe-bind _ _ Safe-remaining λ left _.
      Safe-bind _ _ (Safe-guard _) λ ok _.
        Safe-bind _ _ (Safe-read_many parse_ack_range count range-Safe)
          λ ranges _. Safe-bind _ _ (ecn-Safe ecn) λ counts _. answer _

stream-Safe : (type_raw : ℕ) → Safe (parse_stream type_raw) Any
unfolding parse_stream
stream-Safe t = then_varint _ λ id _.
    Safe-bind _ _ (read_if-Safe _)
      λ offset _. Safe-bind _ _ (read_length-Safe _) λ n small. then_bytes n _ small λ b. answer _

cid-Safe : Safe parse_new_connection_id Any
unfolding parse_new_connection_id
cid-Safe = then_varint _ λ sequence _. then_varint _ λ retire _.
    Safe-bind _ _ Safe-read_byte λ cid_len small. Safe-bind _ _ (Safe-guard _) λ ok _.
      then_bytes cid_len _ (omega (arith, small))
        λ cid. then_bytes 16 _ (omega arith) λ token. answer _

path-Safe : (challenge : Bool) → Safe (parse_path challenge) Any
unfolding parse_path
path-Safe challenge = then_bytes 8 _ (omega arith) λ bytes. answer _

close-Safe : (application : Bool) → Safe (parse_connection_close application) Any
unfolding parse_connection_close
close-Safe application = then_varint _ λ code _.
    Safe-bind _ _ (read_if-Safe (not application))
      λ type _. then_varint _ λ n small. then_bytes n _ (omega arith) λ reason. answer _

max_data-Safe : Safe parse_max_data Any
unfolding parse_max_data
max_data-Safe = then_varint _ λ a _. answer _

max_stream_data-Safe : Safe parse_max_stream_data Any
unfolding parse_max_stream_data
max_stream_data-Safe = then_varint _ λ a _. then_varint _ λ b _. answer _

data_blocked-Safe : Safe parse_data_blocked Any
unfolding parse_data_blocked
data_blocked-Safe = then_varint _ λ a _. answer _

stream_data_blocked-Safe : Safe parse_stream_data_blocked Any
unfolding parse_stream_data_blocked
stream_data_blocked-Safe = then_varint _ λ a _. then_varint _ λ b _. answer _

retire-Safe : Safe parse_retire_connection_id Any
unfolding parse_retire_connection_id
retire-Safe = then_varint _ λ a _. answer _

reset_stream-Safe : Safe parse_reset_stream Any
unfolding parse_reset_stream
reset_stream-Safe = then_varint _ λ a _. then_varint _ λ b _. then_varint _ λ c _. answer _

stop_sending-Safe : Safe parse_stop_sending Any
unfolding parse_stop_sending
stop_sending-Safe = then_varint _ λ a _. then_varint _ λ b _. answer _

max_streams-Safe : (bidi : Bool) → Safe (parse_max_streams bidi) Any
unfolding parse_max_streams
max_streams-Safe bidi = then_varint _ λ a _. answer _

streams_blocked-Safe : (bidi : Bool) → Safe (parse_streams_blocked bidi) Any
unfolding parse_streams_blocked
streams_blocked-Safe bidi = then_varint _ λ a _. answer _

crypto-Safe : Safe parse_crypto Any
unfolding parse_crypto
crypto-Safe =
    then_varint _ λ off _. then_varint _ λ n small. then_bytes n _ (omega arith) λ b. answer _

new_token-Safe : Safe parse_new_token Any
unfolding parse_new_token
new_token-Safe = then_varint _ λ n small. then_bytes n _ (omega arith) λ b. answer _

control-Safe : (t : ℕ) → Safe (parse_control t) Any
unfolding parse_control
control-Safe t buf off a off' hb lo e = ground (
  arith,
  max_data-Safe buf off a off' hb lo,
  max_stream_data-Safe buf off a off' hb lo,
  max_streams-Safe (t == code_of FrameType.max_streams_bidi) buf off a off' hb lo,
  data_blocked-Safe buf off a off' hb lo,
  stream_data_blocked-Safe buf off a off' hb lo,
  streams_blocked-Safe (t == code_of FrameType.streams_blocked_bidi) buf off a off' hb lo,
  cid-Safe buf off a off' hb lo,
  retire-Safe buf off a off' hb lo,
  path-Safe (t == code_of FrameType.path_challenge) buf off a off' hb lo,
  close-Safe (t == code_of FrameType.connection_close_application) buf off a off' hb lo,
)

body-Safe : (t : ℕ) → Safe (parse_body t) Any
unfolding parse_body
body-Safe t buf off a off' hb lo e = ground (
  arith,
  padding-Safe buf off a off' hb lo,
  ack-Safe (t == code_of FrameType.ack_ecn) buf off a off' hb lo,
  reset_stream-Safe buf off a off' hb lo,
  stop_sending-Safe buf off a off' hb lo,
  crypto-Safe buf off a off' hb lo,
  new_token-Safe buf off a off' hb lo,
  stream-Safe t buf off a off' hb lo,
  control-Safe t buf off a off' hb lo,
)

-- A first read of a number takes a byte at least.
varint_moves :
    (f : ℕ → Reader Frame) (buf : Bytes) (off off' : ℕ) (a : Frame)
    → ((v : ℕ) → Safe (f v) Any)
    → IsBuffer buf
    → off ≤ length buf
    → (read_varint >>= f) buf off ≡ some (a, off')
    → (off < off') × (off' ≤ length buf)
varint_moves f buf off off' a hf hb lo e =
    let (v, mid, e₁, e₂) = bind-eq-some read_varint f buf off e in
    let (small, moved, near, inside) = decode_bounds buf off v mid hb e₁ in
    let (_, up, inside') = hf v buf mid a off' hb inside e₂ in (ground arith, inside')

-- Whatever the bytes of the payload, shorter than 2 ^ 63, a frame that `parse_frame` accepts takes
-- at least one byte, and its end is inside the payload.
pub parse_frame_bounds :
    (buf : Bytes) (off off' : ℕ) (f : Frame)
    → IsBuffer buf
    → parse_frame buf off ≡ some (f, off')
    → (off < off') × (off' ≤ length buf)
unfolding parse_frame
parse_frame_bounds buf off off' f hb e = elim (Bool-cases (leb (length buf) off)) [
  | inl past ↦ cc past
  | inr before ↦ varint_moves parse_body buf off off' f body-Safe hb (ground arith) (rw before at e)
]

loop-ne-stuck :
    (fuel : ℕ) (payload : Bytes) (off : ℕ) (out : List Frame)
    → IsBuffer payload
    → length payload ≤ off + fuel
    → parse_loop fuel payload off out ≢ stuck
unfolding parse_loop
loop-ne-stuck zero payload off out hb h = ground arith
loop-ne-stuck (suc fuel) payload off out hb h = elim (Bool-cases (ltb off (length payload))) [
  | inr past ↦ rw past (λ e. cc)
  | inl before ↦ rw before (elim (Option-cases (parse_frame payload off)) [
    | inl e ↦ rw e (λ p. cc)
    | inr ((f, off'), e) ↦ rw e (
        loop-ne-stuck fuel payload off' (out ++ f ∷ []) hb
          (omega (arith, parse_frame_bounds payload off off' f hb e)))
  ])
]

-- `parse_frames` ends on every payload of bytes, shorter than 2 ^ 63: its loop never runs out of
-- rounds.
pub parse_frames-ne-stuck : (payload : Bytes) → IsBuffer payload → parse_frames payload ≢ stuck
unfolding parse_frames
parse_frames-ne-stuck payload hb = loop-ne-stuck (length payload) payload 0 [] hb (omega arith)
