-- ===== src/Quic/TransportParams/Encode.antt =====
-- `encode_transport_params` of example/quic-http3/src/quic/transport_params.cpp.
use libspaznet.Base.{◌==◌, Bytes, length, ℕ, not, Option, none, some, []}
use libspaznet.Wire.Writer.{Writer, ◌>>◌, done, insert, when, for_each}
use libspaznet.Quic.VarInt.{append}
use libspaznet.Quic.TransportParams.{TransportParamId, code_of, Unknown, TransportParameters}

abbrev pub append_param : ℕ → Bytes → Writer
append_param id value = append id >> (append (length value) >> insert value)

-- The number goes to a vector of its own first.
unfoldable pub append_varint_param : ℕ → ℕ → Writer
append_varint_param id value out = elim (append value []) [
  | none ↦ none
  | some v ↦ append_param id v out
]

abbrev pub append_empty_param : ℕ → Writer
append_empty_param id = append id >> append 0

unfoldable pub append_optional : TransportParamId → Option Bytes → Writer
append_optional id none = done
append_optional id (some value) = append_param (code_of id) value

-- Only a number that differs from its default is written.
abbrev pub append_unless : TransportParamId → ℕ → ℕ → Writer
append_unless id default value =
    when (not (value == default)) (append_varint_param (code_of id) value)

unfoldable pub append_numbers : TransportParameters → Writer
append_numbers tp =
    append_unless TransportParamId.max_idle_timeout 0 tp.max_idle_timeout_ms
    >> append_unless TransportParamId.max_udp_payload_size 65527 tp.max_udp_payload_size
    >> append_unless TransportParamId.initial_max_data 0 tp.initial_max_data
    >> append_unless TransportParamId.initial_max_stream_data_bidi_local 0
        tp.initial_max_stream_data_bidi_local
    >> append_unless TransportParamId.initial_max_stream_data_bidi_remote 0
        tp.initial_max_stream_data_bidi_remote
    >> append_unless TransportParamId.initial_max_stream_data_uni 0 tp.initial_max_stream_data_uni
    >> append_unless TransportParamId.initial_max_streams_bidi 0 tp.initial_max_streams_bidi
    >> append_unless TransportParamId.initial_max_streams_uni 0 tp.initial_max_streams_uni
    >> append_unless TransportParamId.ack_delay_exponent 3 tp.ack_delay_exponent
    >> append_unless TransportParamId.max_ack_delay 25 tp.max_ack_delay_ms
    >> append_unless TransportParamId.active_connection_id_limit 2 tp.active_connection_id_limit

abbrev pub append_unknown : Unknown → Writer
append_unknown u = append_param u.id u.value

unfoldable pub encode_transport_params : TransportParameters → Option Bytes
encode_transport_params tp =
    (append_optional TransportParamId.original_destination_connection_id
          tp.original_destination_connection_id
        >> append_optional TransportParamId.initial_source_connection_id
            tp.initial_source_connection_id
        >> append_optional TransportParamId.retry_source_connection_id tp.retry_source_connection_id
        >> append_optional TransportParamId.stateless_reset_token tp.stateless_reset_token
        >> append_numbers tp
        >> when tp.disable_active_migration
            (append_empty_param (code_of TransportParamId.disable_active_migration))
        >> for_each append_unknown tp.unknown)
      []
