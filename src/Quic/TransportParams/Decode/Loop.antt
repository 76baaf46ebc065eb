-- ===== src/Quic/TransportParams/Decode/Loop.antt =====
-- The loop of `decode_transport_params` over any bytes.
use libspaznet.Base.{
  ltb, ltb-ge, Bool-cases, Option-cases, Bytes, length, ℕ, zero, suc, ◌+◌, ◌≤◌, ◌<◌, ◌≡◌, subst,
  ◌≢◌, inl, inr, false, some, List, [], ◌∷◌, arith,
}
use libspaznet.Wire.Reader.{◌>>=◌, read_bytes, Reader, return}
use libspaznet.Wire.Safe.{bind-eq-some, IsBuffer, Safe-read_bytes}
use libspaznet.Quic.VarInt.{decode as read_varint}
use libspaznet.Quic.VarInt.Bounds.{decode_bounds}
use libspaznet.Quic.TransportParams.{TransportParameters}
use libspaznet.Quic.TransportParams.Decode.{
  store, read_param, is_seen, decode_loop, decode_transport_params, decoded, stuck,
}
use libspaznet.Quic.TransportParams.Decode.Accepted.{IsValid, store-Gives}

-- Parameters that stand one after the other from the offset to the end of the bytes.
abbrev pub Reads : Bytes → ℕ → List (ℕ × Bytes) → Type 0
Reads wire off [] = length wire ≤ off
Reads wire off (p ∷ ps) =
    (off < length wire) × (off' : ℕ) × (read_param wire off ≡ some (p, off')) × Reads wire off' ps

-- No id occurs twice, nor in `seen`.
abbrev pub Distinct : List ℕ → List (ℕ × Bytes) → Type 0
Distinct seen [] = Unit
Distinct seen ((id, value) ∷ ps) = (is_seen id seen ≡ false) × Distinct (id ∷ seen) ps

record Sound (wire : Bytes) (off : ℕ) (seen : List ℕ) (tp : TransportParameters) : Type 0 where
  valid : IsValid tp
  params : List (ℕ × Bytes)
  reads : Reads wire off params
  distinct : Distinct seen params

at_end-Sound :
    (wire : Bytes) (off : ℕ) (seen : List ℕ) (tp tp' : TransportParameters)
    → length wire ≤ off
    → IsValid tp
    → decoded tp ≡ decoded tp'
    → Sound wire off seen tp'
at_end-Sound wire off seen tp tp' h v e = record {
  valid = subst IsValid (cc e) v;
  params = [];
  reads = h;
  distinct = tt;
}

decode_loop-Sound :
    (fuel : ℕ) (wire : Bytes) (off : ℕ) (seen : List ℕ) (tp tp' : TransportParameters)
    → IsValid tp
    → decode_loop fuel wire off seen tp ≡ decoded tp'
    → Sound wire off seen tp'
unfolding decode_loop
decode_loop-Sound zero wire off seen tp tp' v e = elim (Bool-cases (ltb off (length wire))) [
  | inl before ↦ absurd (cc (rw before at e))
  | inr past ↦ at_end-Sound wire off seen tp tp' (ground arith) v (rw past at e)
]
decode_loop-Sound (suc fuel) wire off seen tp tp' v e = elim (Bool-cases (ltb off (length wire))) [
  | inr past ↦ at_end-Sound wire off seen tp tp' (ground arith) v (rw past at e)
  | inl before ↦ elim (Option-cases (read_param wire off)) [
    | inl failed ↦ absurd (cc (rw (before, failed) at e))
    | inr (((id, value), off'), read) ↦ elim (Bool-cases (is_seen id seen)) [
      | inl again ↦ absurd (cc (rw (before, read, again) at e))
      | inr new ↦ elim (Option-cases (store id value tp)) [
        | inl bad ↦ absurd (cc (rw (before, read, new, bad) at e))
        | inr (next, stored) ↦
            let s =
              decode_loop-Sound fuel wire off' (id ∷ seen) next tp'
                (store-Gives id value tp v next stored) (rw (before, read, new, stored) at e) in
            record {
              valid = s.valid;
              params = (id, value) ∷ s.params;
              reads = (ground arith, off', read, s.reads);
              distinct = (new, s.distinct);
            }
      ]
    ]
  ]
]

-- What `decode_transport_params` accepts are parameters that stand one after the other up to the end
-- of the bytes, no id twice; and the answer has connection IDs of at most 20 bytes and a token
-- of 16, if the caller's parameters had.
pub decode_transport_params-Sound :
    (wire : Bytes) (tp tp' : TransportParameters)
    → IsValid tp
    → decode_transport_params wire tp ≡ decoded tp'
    → IsValid tp' × (params : List (ℕ × Bytes)) × Reads wire 0 params × Distinct [] params
unfolding decode_transport_params
decode_transport_params-Sound wire tp tp' v e =
    let s = decode_loop-Sound (length wire) wire 0 [] tp tp' v e in
    (s.valid, s.params, s.reads, s.distinct)

read_param-moves :
    (wire : Bytes) (off off' : ℕ) (p : ℕ × Bytes)
    → IsBuffer wire
    → read_param wire off ≡ some (p, off')
    → off < off'
unfolding read_param
read_param-moves wire off off' p hb e =
    let (id, m₁, e₁, r₁) =
      bind-eq-some read_varint (λ id. (read_varint >>= λ n. (read_bytes n >>= pair id))) wire off
        e in
    let (n, m₂, e₂, r₂) = bind-eq-some read_varint (λ n. (read_bytes n >>= pair id)) wire m₁ r₁ in
    let (value, m₃, e₃, r₃) = bind-eq-some (read_bytes n) (pair id) wire m₂ r₂ in
    let (small₁, up₁, near₁, in₁) = decode_bounds wire off id m₁ hb e₁ in
    let (small₂, up₂, near₂, in₂) = decode_bounds wire m₁ n m₂ hb e₂ in
    let (_, up₃, _) = Safe-read_bytes n (omega arith) wire m₂ value m₃ hb in₂ e₃ in ground arith
  where
    pair : ℕ → Bytes → Reader (ℕ × Bytes)
    pair id value = return (id, value)

decode_loop-ne-stuck :
    (fuel : ℕ) (wire : Bytes) (off : ℕ) (seen : List ℕ) (tp : TransportParameters)
    → IsBuffer wire
    → length wire ≤ off + fuel
    → decode_loop fuel wire off seen tp ≢ stuck
unfolding decode_loop
decode_loop-ne-stuck zero wire off seen tp hb enough =
    rw (ltb-ge off (length wire) (omega arith)) (λ e. cc e)
decode_loop-ne-stuck (suc fuel) wire off seen tp hb enough =
    elim (Bool-cases (ltb off (length wire))) [
      | inr past ↦ rw past (λ e. cc e)
      | inl before ↦ rw before (elim (Option-cases (read_param wire off)) [
        | inl failed ↦ rw failed (λ e. cc e)
        | inr (((id, value), off'), read) ↦ rw read (elim (Bool-cases (is_seen id seen)) [
          | inl again ↦ rw again (λ e. cc e)
          | inr new ↦ rw new (elim (Option-cases (store id value tp)) [
            | inl bad ↦ rw bad (λ e. cc e)
            | inr (next, stored) ↦ rw stored (
                decode_loop-ne-stuck fuel wire off' (id ∷ seen) next hb
                  (omega (arith, read_param-moves wire off off' (id, value) hb read)))
          ])
        ])
      ])
    ]

-- `decode_transport_params` ends on all bytes, fewer than 2 ^ 63: its loop never runs out of rounds.
pub decode_transport_params-ne-stuck :
    (wire : Bytes) (tp : TransportParameters)
    → IsBuffer wire
    → decode_transport_params wire tp ≢ stuck
unfolding decode_transport_params
decode_transport_params-ne-stuck wire tp hb =
    decode_loop-ne-stuck (length wire) wire 0 [] tp hb (omega arith)
