-- ===== src/Websocket/Session.antt =====
-- `WsConnection` of example/http-websocket/src/dispatcher_reactor.cpp, once it speaks WebSocket.
pub mod Pieces
pub mod Steps
pub mod Cuts
pub mod Delivery
pub mod Frames
use libspaznet.Base.{
  ltb, ◌==◌, if◌then◌else◌, Bytes, length, take, drop, ℕ, zero, suc, ◌+◌, ◌*◌, ◌/◌, ◌%◌, ◌^◌, Bool,
  true, false, not, ◌&&◌, List, [], ◌∷◌, ◌++◌,
}
use libspaznet.Websocket.Frame.{
  is_control_opcode, continuation, close, ping, pong, k_max_payload_bytes, mask_from, serialize,
}
use libspaznet.Websocket.Header.{header_size, Verdict, refuses, accepts, read_header}

pub record Message : Type 0 where
  pub opcode : ℕ
  pub content : Bytes

pub data Phase : Type 0 where
  reading_header reading_payload : Phase

-- The fields of the connection, and what it did: the bytes that it wrote, the messages that the
-- handler got and the calls of `close_after_flush`. The socket does not fail while input is read, and
-- what the handler sends by itself is not among the bytes written.
pub record Session : Type 0 where
  pub buffer : Bytes
  pub phase : Phase
  pub closing : Bool
  pub sent_close : Bool
  pub pending_fin : Bool
  pub pending_opcode : ℕ
  pub pending_masking_key : ℕ
  pub pending_payload_len : ℕ
  pub message_buffer : Bytes
  pub current_message_opcode : ℕ
  pub fragmented : Bool
  pub written : Bytes
  pub messages : List Message
  pub closings : ℕ

-- `complete_ws_handshake`: the bytes behind the request are the first of the frames.
abbrev pub opened : Bytes → Session
opened leftover = record {
  buffer = leftover;
  phase = reading_header;
  closing = false;
  sent_close = false;
  pending_fin = false;
  pending_opcode = continuation;
  pending_masking_key = 0;
  pending_payload_len = 0;
  message_buffer = [];
  current_message_opcode = continuation;
  fragmented = false;
  written = [];
  messages = [];
  closings = 0;
}

-- The payload of `send_frame`, which puts a close code first.
unfoldable pub control_payload : ℕ → Bytes → ℕ → Bytes
control_payload opcode payload close_code =
    if (opcode == close) && not (close_code == 0)
    then close_code / 2 ^ 8 % 256 ∷ close_code % 256 ∷ payload
    else payload

unfoldable pub send_frame : ℕ → Bytes → ℕ → Session → Session
send_frame opcode payload close_code s =
    let body = control_payload opcode payload close_code in
    record s {
      written =
          s.written
          ++ serialize (record {
            fin = true;
            rsv1 = false;
            rsv2 = false;
            rsv3 = false;
            opcode = opcode;
            masked = false;
            payload_length = length body;
            masking_key = 0;
            payload = body;
          });
    }

-- A close frame, unless one was sent.
unfoldable pub send_close : Bytes → ℕ → Session → Session
send_close payload close_code s =
    if s.sent_close then s else send_frame close payload close_code (record s { sent_close = true })

abbrev pub give_up : Session → Session
give_up s = record s { closing = true; closings = s.closings + 1 }

unfoldable pub fail_close : ℕ → Session → Session
fail_close code s = give_up (send_close [] code s)

-- The end of a message, where `fin` says so; the answer is whether to go on.
unfoldable pub finish_frame : Bool → Session → Bool × Session
finish_frame fin s =
    if fin
    then (
      not s.closing,
      record s {
        fragmented = false;
        messages =
            s.messages
            ++ (record { opcode = s.current_message_opcode; content = s.message_buffer } ∷ []);
        message_buffer = [];
      },
    )
    else (not s.closing, s)

unfoldable pub handle_control : ℕ → Bytes → Session → Bool × Session
handle_control opcode payload s =
    if opcode == close
    then (false, give_up (send_close payload 0 s))
    else if opcode == ping
    then (true, send_frame pong payload 0 s)
    else (true, s)

unfoldable pub handle_data : ℕ → Bool → Bytes → Session → Bool × Session
handle_data opcode fin payload s =
    if not (opcode == continuation)
    then (if s.fragmented
        then (false, fail_close 1002 s)
        else finish_frame fin (record s {
          current_message_opcode = opcode;
          message_buffer = payload;
          fragmented = not fin;
        }))
    else if not s.fragmented
    then (false, fail_close 1002 s)
    else if ltb k_max_payload_bytes (length s.message_buffer + length payload)
    then (false, fail_close 1009 s)
    else finish_frame fin (record s { message_buffer = s.message_buffer ++ payload })

unfoldable pub handle_frame : ℕ → Bool → Bytes → Session → Bool × Session
handle_frame opcode fin payload s =
    if is_control_opcode opcode
    then handle_control opcode payload s
    else handle_data opcode fin payload s

unfoldable pub with_header : Verdict → Session → Bool × Session
with_header (refuses code) s = (false, fail_close code s)
with_header (accepts fin opcode masking_key size) s = (
  true,
  record s {
    pending_masking_key = masking_key;
    pending_fin = fin;
    pending_opcode = opcode;
    pending_payload_len = size;
    buffer = drop (header_size s.buffer) s.buffer;
    phase = reading_payload;
  },
)

unfoldable pub try_read_header : Session → Bool × Session
try_read_header s =
    if ltb (length s.buffer) 2
    then (false, s)
    else if ltb (length s.buffer) (header_size s.buffer)
    then (false, s)
    else with_header (read_header s.buffer) s

unfoldable pub try_read_payload : Session → Bool × Session
try_read_payload s =
    let n = s.pending_payload_len in
    let payload = mask_from s.pending_masking_key 0 (take n s.buffer) in
    if ltb (length s.buffer) n
    then (false, s)
    else handle_frame s.pending_opcode s.pending_fin payload
        (record s { buffer = drop n s.buffer; phase = reading_header })

unfoldable pub try_read : Phase → Session → Bool × Session
try_read reading_header s = try_read_header s
try_read reading_payload s = try_read_payload s

-- The loop of `process`, on fuel.
unfoldable pub process : ℕ → Session → Session
process zero s = s
process (suc n) s =
    let (progressed, s') = try_read s.phase s in
    let later = process n s' in if s.closing then s else if progressed then later else s'

-- More than there are turns to take: a header takes two bytes at least, and its payload follows.
abbrev pub fuel_for : Session → ℕ
fuel_for s = 2 * length s.buffer + 2

abbrev pub receive : Bytes → Session → Session
receive bytes s = record s { buffer = s.buffer ++ bytes }

unfoldable pub on_data : Bytes → Session → Session
on_data bytes s =
    let s' = receive bytes s in
    let later = process (fuel_for s') s' in if s.closing then s' else later
