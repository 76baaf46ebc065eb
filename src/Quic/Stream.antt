-- ===== src/Quic/Stream.antt =====
-- example/quic-http3/src/quic/stream.cpp and stream.hpp: one QUIC stream. Its members fall into those
-- of the receive side and those of the send side, which no function mixes; each side has its module.
pub mod Send
pub mod Recv
use libspaznet.Base.{◌==◌, ℕ, bit_and, Bool}
use libspaznet.Quic.Stream.Send.{SendSide, no_data_sent}
use libspaznet.Quic.Stream.Recv.{RecvSide, no_data_received}

pub record Stream : Type 0 where
  pub id : ℕ
  pub recv_side : RecvSide
  pub send_side : SendSide

abbrev pub make : ℕ → ℕ → ℕ → Stream
make stream_id initial_max_recv initial_max_send = record {
  id = stream_id;
  recv_side = no_data_received initial_max_recv;
  send_side = no_data_sent initial_max_send;
}

-- The two low bits of a stream's id.
unfoldable pub stream_type : ℕ → ℕ
stream_type stream_id = bit_and stream_id 0x03

unfoldable pub is_bidi : ℕ → Bool
is_bidi stream_id = bit_and stream_id 0x02 == 0

unfoldable pub is_client_initiated : ℕ → Bool
is_client_initiated stream_id = bit_and stream_id 0x01 == 0
