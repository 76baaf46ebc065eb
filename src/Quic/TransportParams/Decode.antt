-- ===== src/Quic/TransportParams/Decode.antt =====
-- `decode_transport_params` of example/quic-http3/src/quic/transport_params.cpp.
pub mod Accepted
pub mod Loop
use libspaznet.Base.{
  ltb, ◌==◌, if◌then◌else◌, Bytes, length, ℕ, zero, suc, Bool, true, false, not, ◌||◌, Option, none,
  some, List, [], ◌∷◌, ◌++◌,
}
use libspaznet.Wire.Reader.{Reader, ◌>>=◌, read_bytes}
use libspaznet.Quic.VarInt.{decode as read_varint}
use libspaznet.Quic.TransportParams.{
  TransportParamId, code_of, TransportParameters, max_idle_timeout, max_ack_delay,
}

-- A value that is one number and no more.
unfoldable pub read_varint_value : Bytes → Option ℕ
read_varint_value value = elim (read_varint value 0) [
  | none ↦ none
  | some (v, off) ↦ if off == length value then some v else none
]

-- A number that is stored by `set`.
unfoldable pub numbered : (ℕ → TransportParameters) → Bytes → Option TransportParameters
numbered set value = elim (read_varint_value value) [ none ↦ none | some v ↦ some (set v) ]

abbrev pub k_max_cid_len : ℕ
k_max_cid_len = 20

-- A value of at most 20 bytes.
unfoldable pub connection_id :
    (Option Bytes → TransportParameters) → Bytes → Option TransportParameters
connection_id set value = if ltb k_max_cid_len (length value) then none else some (set (some value))

-- The cases whose value is not a number.
unfoldable pub store_bytes : ℕ → Bytes → TransportParameters → Option TransportParameters
store_bytes id value tp =
    if id == code_of TransportParamId.original_destination_connection_id
    then connection_id (λ c. record tp { original_destination_connection_id = c }) value
    else if id == code_of TransportParamId.initial_source_connection_id
    then connection_id (λ c. record tp { initial_source_connection_id = c }) value
    else if id == code_of TransportParamId.retry_source_connection_id
    then connection_id (λ c. record tp { retry_source_connection_id = c }) value
    else if id == code_of TransportParamId.stateless_reset_token
    then (if not (length value == 16)
        then none
        else some (record tp { stateless_reset_token = some value }))
    else if id == code_of TransportParamId.disable_active_migration
    then (if not (length value == 0)
        then none
        else some (record tp { disable_active_migration = true }))
    else some (record tp { unknown = tp.unknown ++ record { id = id; value = value } ∷ [] })

-- The `switch` on the id.
unfoldable pub store : ℕ → Bytes → TransportParameters → Option TransportParameters
store id value tp =
    if id == code_of TransportParamId.max_idle_timeout
    then numbered (λ v. record tp { max_idle_timeout_ms = v }) value
    else if id == code_of TransportParamId.max_udp_payload_size
    then numbered (λ v. record tp { max_udp_payload_size = v }) value
    else if id == code_of TransportParamId.initial_max_data
    then numbered (λ v. record tp { initial_max_data = v }) value
    else if id == code_of TransportParamId.initial_max_stream_data_bidi_local
    then numbered (λ v. record tp { initial_max_stream_data_bidi_local = v }) value
    else if id == code_of TransportParamId.initial_max_stream_data_bidi_remote
    then numbered (λ v. record tp { initial_max_stream_data_bidi_remote = v }) value
    else if id == code_of TransportParamId.initial_max_stream_data_uni
    then numbered (λ v. record tp { initial_max_stream_data_uni = v }) value
    else if id == code_of TransportParamId.initial_max_streams_bidi
    then numbered (λ v. record tp { initial_max_streams_bidi = v }) value
    else if id == code_of TransportParamId.initial_max_streams_uni
    then numbered (λ v. record tp { initial_max_streams_uni = v }) value
    else if id == code_of TransportParamId.ack_delay_exponent
    then numbered (λ v. record tp { ack_delay_exponent = v }) value
    else if id == code_of TransportParamId.max_ack_delay
    then numbered (λ v. record tp { max_ack_delay_ms = v }) value
    else if id == code_of TransportParamId.active_connection_id_limit
    then numbered (λ v. record tp { active_connection_id_limit = v }) value
    else store_bytes id value tp

-- Id, length and value of one parameter.
unfoldable pub read_param : Reader (ℕ × Bytes)
read_param = read_varint >>= λ id.
    (read_varint >>= λ size. (read_bytes size >>= λ value. λ buf off. some ((id, value), off)))

-- `!seen.insert(id).second`
unfoldable pub is_seen : ℕ → List ℕ → Bool
is_seen id [] = false
is_seen id (s ∷ seen) = (id == s) || is_seen id seen

-- The answers of `decode_transport_params`; `stuck` is no answer of the source: the rounds ran out.
pub data Decoded : Type 0 where
  decoded : TransportParameters → Decoded
  refused : Decoded
  stuck : Decoded

unfoldable pub decode_loop : ℕ → Bytes → ℕ → List ℕ → TransportParameters → Decoded
decode_loop zero wire off seen tp = if ltb off (length wire) then stuck else decoded tp
decode_loop (suc fuel) wire off seen tp =
    if ltb off (length wire)
    then (elim (read_param wire off) [
      | none ↦ refused
      | some ((id, value), off') ↦ if is_seen id seen then refused else (elim (store id value tp) [
        | none ↦ refused
        | some tp' ↦ decode_loop fuel wire off' (id ∷ seen) tp'
      ])
    ])
    else decoded tp

-- Each round takes two bytes at least.
unfoldable pub decode_transport_params : Bytes → TransportParameters → Decoded
decode_transport_params wire tp = decode_loop (length wire) wire 0 [] tp
