-- ===== src/Quic/TransportParams.antt =====
-- example/quic-http3/src/quic/transport_params.cpp and transport_params.hpp: the transport parameters of
-- RFC 9000, section 18.
pub mod Encode
pub mod Decode
use libspaznet.Base.{Bytes, ℕ, Bool, false, Option, none, List, []}
use libspaznet.Wire.Writer.{Writer, ◌>>◌, done, insert, when, for_each}
use libspaznet.Quic.VarInt.{append}

-- `enum class TransportParamId`
pub data TransportParamId : Type 0 where
  original_destination_connection_id max_idle_timeout stateless_reset_token : TransportParamId
  max_udp_payload_size initial_max_data initial_max_stream_data_bidi_local : TransportParamId
  initial_max_stream_data_bidi_remote initial_max_stream_data_uni : TransportParamId
  initial_max_streams_bidi initial_max_streams_uni ack_delay_exponent : TransportParamId
  max_ack_delay disable_active_migration active_connection_id_limit : TransportParamId
  initial_source_connection_id retry_source_connection_id : TransportParamId

abbrev pub code_of : TransportParamId → ℕ
code_of TransportParamId.original_destination_connection_id = 0x00
code_of TransportParamId.max_idle_timeout = 0x01
code_of TransportParamId.stateless_reset_token = 0x02
code_of TransportParamId.max_udp_payload_size = 0x03
code_of TransportParamId.initial_max_data = 0x04
code_of TransportParamId.initial_max_stream_data_bidi_local = 0x05
code_of TransportParamId.initial_max_stream_data_bidi_remote = 0x06
code_of TransportParamId.initial_max_stream_data_uni = 0x07
code_of TransportParamId.initial_max_streams_bidi = 0x08
code_of TransportParamId.initial_max_streams_uni = 0x09
code_of TransportParamId.ack_delay_exponent = 0x0a
code_of TransportParamId.max_ack_delay = 0x0b
code_of TransportParamId.disable_active_migration = 0x0c
code_of TransportParamId.active_connection_id_limit = 0x0e
code_of TransportParamId.initial_source_connection_id = 0x0f
code_of TransportParamId.retry_source_connection_id = 0x10

pub record Unknown : Type 0 where
  pub id : ℕ
  pub value : Bytes

pub record TransportParameters : Type 0 where
  pub original_destination_connection_id : Option Bytes
  pub initial_source_connection_id : Option Bytes
  pub retry_source_connection_id : Option Bytes
  pub stateless_reset_token : Option Bytes
  pub max_idle_timeout_ms : ℕ
  pub max_udp_payload_size : ℕ
  pub initial_max_data : ℕ
  pub initial_max_stream_data_bidi_local : ℕ
  pub initial_max_stream_data_bidi_remote : ℕ
  pub initial_max_stream_data_uni : ℕ
  pub initial_max_streams_bidi : ℕ
  pub initial_max_streams_uni : ℕ
  pub ack_delay_exponent : ℕ
  pub max_ack_delay_ms : ℕ
  pub active_connection_id_limit : ℕ
  pub disable_active_migration : Bool
  pub unknown : List Unknown

abbrev pub defaults : TransportParameters
defaults = record {
  original_destination_connection_id = none;
  initial_source_connection_id = none;
  retry_source_connection_id = none;
  stateless_reset_token = none;
  max_idle_timeout_ms = 0;
  max_udp_payload_size = 65527;
  initial_max_data = 0;
  initial_max_stream_data_bidi_local = 0;
  initial_max_stream_data_bidi_remote = 0;
  initial_max_stream_data_uni = 0;
  initial_max_streams_bidi = 0;
  initial_max_streams_uni = 0;
  ack_delay_exponent = 3;
  max_ack_delay_ms = 25;
  active_connection_id_limit = 2;
  disable_active_migration = false;
  unknown = [];
}
