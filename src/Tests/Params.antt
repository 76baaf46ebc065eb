-- ===== src/Tests/Params.antt =====
-- Transport parameters at concrete inputs.
use libspaznet.Base.{Bytes, ℕ, ◌≡◌, refl, ◌≢◌, List, [], ◌∷◌, arith}
use libspaznet.Wire.Reader.{read_bytes}
use libspaznet.Wire.Safe.{IsBuffer}
use libspaznet.Quic.VarInt.{decode, decode_loop as number_loop}
use libspaznet.Quic.TransportParams.{TransportParameters, defaults}
use libspaznet.Quic.TransportParams.Decode.{
  decode_transport_params, decoded, stuck, decode_loop as params_loop, read_param, is_seen, store,
  store_bytes, numbered, read_varint_value,
}
use libspaznet.Quic.TransportParams.Decode.Accepted.{IsValid}
use libspaznet.Quic.TransportParams.Decode.Loop.{
  Reads, Distinct, decode_transport_params-Sound, decode_transport_params-ne-stuck,
}

-- ack_delay_exponent 5, and an empty unknown parameter 0x20.
abbrev wire : Bytes
wire = 0x0a ∷ 1 ∷ 5 ∷ 0x20 ∷ 0 ∷ []

wire-IsBuffer : IsBuffer wire
wire-IsBuffer =
    ((omega arith, (omega arith, (omega arith, (omega arith, (omega arith, tt))))), omega arith)

abbrev answer : TransportParameters
answer = record defaults { ack_delay_exponent = 5; unknown = record { id = 0x20; value = [] } ∷ [] }

decode-wire : decode_transport_params wire defaults ≡ decoded answer
unfolding decode_transport_params params_loop read_param read_bytes decode number_loop is_seen store
    store_bytes numbered read_varint_value
decode-wire = refl

defaults-IsValid : IsValid defaults
defaults-IsValid = record { original = tt; source = tt; retry = tt; token = tt }

decode_transport_params-Sound_example :
    IsValid answer × (params : List (ℕ × Bytes)) × Reads wire 0 params × Distinct [] params
decode_transport_params-Sound_example =
    decode_transport_params-Sound wire defaults answer defaults-IsValid decode-wire

decode_transport_params-ne-stuck_example : decode_transport_params wire defaults ≢ stuck
decode_transport_params-ne-stuck_example =
    decode_transport_params-ne-stuck wire defaults wire-IsBuffer
