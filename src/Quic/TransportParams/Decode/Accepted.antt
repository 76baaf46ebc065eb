-- ===== src/Quic/TransportParams/Decode/Accepted.antt =====
-- What `decode_transport_params` accepts, and that it ends.
use libspaznet.Base.{
  ltb, ◌==◌, if◌then◌else◌, ==_iff, Bool-cases, Option-cases, Bytes, length, ℕ, ◌≤◌, ◌≡◌, subst,
  inl, inr, Bool, true, false, not, Option, none, some, List, [], ◌∷◌, ◌++◌, arith,
}
use libspaznet.Quic.TransportParams.{TransportParameters, Unknown, TransportParamId, code_of}
use libspaznet.Quic.TransportParams.Decode.{
  read_varint_value, numbered, k_max_cid_len, connection_id, store_bytes, store,
}

abbrev Short : Option Bytes → Type 0
Short none = Unit
Short (some c) = length c ≤ k_max_cid_len

abbrev IsToken : Option Bytes → Type 0
IsToken none = Unit
IsToken (some c) = length c ≡ 16

-- Connection IDs of at most 20 bytes, and a token of 16.
pub record IsValid (tp : TransportParameters) : Type 0 where
  pub original : Short tp.original_destination_connection_id
  pub source : Short tp.initial_source_connection_id
  pub retry : Short tp.retry_source_connection_id
  pub token : IsToken tp.stateless_reset_token

-- The parameters, if there are any, are valid.
abbrev pub Gives : Option TransportParameters → Type 0
Gives o = (tp : TransportParameters) → o ≡ some tp → IsValid tp

gives : (tp : TransportParameters) → IsValid tp → Gives (some tp)
gives tp h tp' e = subst IsValid (cc e) h

either :
    (b : Bool) (p q : Option TransportParameters) → Gives p → Gives q → Gives (if b then p else q)
either true p q hp hq = hp
either false p q hp hq = hq

refusal : Gives none
refusal tp e = cc e

numbered-Gives :
    (set : ℕ → TransportParameters) (value : Bytes)
    → ((v : ℕ) → IsValid (set v))
    → Gives (numbered set value)
unfolding numbered
numbered-Gives set value h = elim (Option-cases (read_varint_value value)) [
  | inl e ↦ rw (e, numbered) refusal
  | inr (v, e) ↦ rw (e, numbered) (gives (set v) (h v))
]

connection_id-Gives :
    (set : Option Bytes → TransportParameters) (value : Bytes)
    → ((c : Option Bytes) → Short c → IsValid (set c))
    → Gives (connection_id set value)
unfolding connection_id
connection_id-Gives set value h = elim (Bool-cases (ltb k_max_cid_len (length value))) [
  | inl long ↦ rw long refusal
  | inr fits ↦ rw fits (gives (set (some value)) (h (some value) (ground arith)))
]

token-Gives :
    (value : Bytes) (tp : TransportParameters)
    → IsValid tp
    → Gives (
        if not (length value == 16)
        then none
        else some (record tp { stateless_reset_token = some value }))
token-Gives value tp v = elim (Bool-cases (length value == 16)) [
  | inr other ↦ rw other refusal
  | inl fits ↦ rw fits (
      gives (record tp { stateless_reset_token = some value })
        (record {
          original = v.original;
          source = v.source;
          retry = v.retry;
          token = (==_iff (length value) 16).0 fits;
        }))
]

same_ids :
    (tp : TransportParameters)
    → IsValid tp
    → (u : List Unknown) → IsValid (record tp { unknown = u })
same_ids tp v u = record {
  original = v.original;
  source = v.source;
  retry = v.retry;
  token = v.token;
}

migration-Gives :
    (value : Bytes) (tp : TransportParameters)
    → IsValid tp
    → Gives (
        if not (length value == 0)
        then none
        else some (record tp { disable_active_migration = true }))
migration-Gives value tp v =
    either (not (length value == 0)) none (some (record tp { disable_active_migration = true }))
      refusal
      (gives (record tp { disable_active_migration = true })
        (record { original = v.original; source = v.source; retry = v.retry; token = v.token }))

store_bytes-Gives :
    (id : ℕ) (value : Bytes) (tp : TransportParameters)
    → IsValid tp
    → Gives (store_bytes id value tp)
unfolding store_bytes
store_bytes-Gives id value tp v =
    either (id == code_of TransportParamId.original_destination_connection_id) _ _
      (connection_id-Gives (λ c. record tp { original_destination_connection_id = c }) value
        (λ c h. record { original = h; source = v.source; retry = v.retry; token = v.token }))
      (either (id == code_of TransportParamId.initial_source_connection_id) _ _
        (connection_id-Gives (λ c. record tp { initial_source_connection_id = c }) value
          (λ c h. record { original = v.original; source = h; retry = v.retry; token = v.token }))
        (either (id == code_of TransportParamId.retry_source_connection_id) _ _
          (connection_id-Gives (λ c. record tp { retry_source_connection_id = c }) value
            (λ c h. record {
              original = v.original;
              source = v.source;
              retry = h;
              token = v.token;
            }))
          (either (id == code_of TransportParamId.stateless_reset_token) _ _
            (token-Gives value tp v)
            (either (id == code_of TransportParamId.disable_active_migration) _ _
              (migration-Gives value tp v)
              (gives (record tp { unknown = tp.unknown ++ record { id = id; value = value } ∷ [] })
                (same_ids tp v (tp.unknown ++ record { id = id; value = value } ∷ [])))))))

pub store-Gives :
    (id : ℕ) (value : Bytes) (tp : TransportParameters) → IsValid tp → Gives (store id value tp)
unfolding store
store-Gives id value tp v =
    either (id == code_of TransportParamId.max_idle_timeout) _ _
      (numbered-Gives (λ n. record tp { max_idle_timeout_ms = n }) value
        (λ n. record {
          original = v.original;
          source = v.source;
          retry = v.retry;
          token = v.token;
        }))
      (either (id == code_of TransportParamId.max_udp_payload_size) _ _
        (numbered-Gives (λ n. record tp { max_udp_payload_size = n }) value
          (λ n. record {
            original = v.original;
            source = v.source;
            retry = v.retry;
            token = v.token;
          }))
        (either (id == code_of TransportParamId.initial_max_data) _ _
          (numbered-Gives (λ n. record tp { initial_max_data = n }) value
            (λ n. record {
              original = v.original;
              source = v.source;
              retry = v.retry;
              token = v.token;
            }))
          (either (id == code_of TransportParamId.initial_max_stream_data_bidi_local) _ _
            (numbered-Gives (λ n. record tp { initial_max_stream_data_bidi_local = n }) value
              (λ n. record {
                original = v.original;
                source = v.source;
                retry = v.retry;
                token = v.token;
              }))
            (either (id == code_of TransportParamId.initial_max_stream_data_bidi_remote) _ _
              (numbered-Gives (λ n. record tp { initial_max_stream_data_bidi_remote = n }) value
                (λ n. record {
                  original = v.original;
                  source = v.source;
                  retry = v.retry;
                  token = v.token;
                }))
              (either (id == code_of TransportParamId.initial_max_stream_data_uni) _ _
                (numbered-Gives (λ n. record tp { initial_max_stream_data_uni = n }) value
                  (λ n. record {
                    original = v.original;
                    source = v.source;
                    retry = v.retry;
                    token = v.token;
                  }))
                (either (id == code_of TransportParamId.initial_max_streams_bidi) _ _
                  (numbered-Gives (λ n. record tp { initial_max_streams_bidi = n }) value
                    (λ n. record {
                      original = v.original;
                      source = v.source;
                      retry = v.retry;
                      token = v.token;
                    }))
                  (either (id == code_of TransportParamId.initial_max_streams_uni) _ _
                    (numbered-Gives (λ n. record tp { initial_max_streams_uni = n }) value
                      (λ n. record {
                        original = v.original;
                        source = v.source;
                        retry = v.retry;
                        token = v.token;
                      }))
                    (either (id == code_of TransportParamId.ack_delay_exponent) _ _
                      (numbered-Gives (λ n. record tp { ack_delay_exponent = n }) value
                        (λ n. record {
                          original = v.original;
                          source = v.source;
                          retry = v.retry;
                          token = v.token;
                        }))
                      (either (id == code_of TransportParamId.max_ack_delay) _ _
                        (numbered-Gives (λ n. record tp { max_ack_delay_ms = n }) value
                          (λ n. record {
                            original = v.original;
                            source = v.source;
                            retry = v.retry;
                            token = v.token;
                          }))
                        (either (id == code_of TransportParamId.active_connection_id_limit) _ _
                          (numbered-Gives (λ n. record tp { active_connection_id_limit = n }) value
                            (λ n. record {
                              original = v.original;
                              source = v.source;
                              retry = v.retry;
                              token = v.token;
                            }))
                          (store_bytes-Gives id value tp v)))))))))))
