-- ===== src/Quic/Packet/Header.antt =====
-- What `parse_long_header` says of a datagram.
use libspaznet.Base.{
  ltb, leb, ◌==◌, Bool-cases, Bytes, length, get_or, drop, length-take, add64, sub64, ℕ, ◌+◌, ◌-◌,
  ◌≤◌, ◌<◌, bit_and, ◌≡◌, subst, inl, inr, Bool, true, false, some, arith,
}
use libspaznet.Wire.Reader.{slice, read_bytes, read_byte, guard, ◌>>=◌}
use libspaznet.Wire.Safe.{
  Safe, Safe-bind, Safe-read_byte, Safe-read_bytes, IsBuffer, Safe-return, bind-eq-some, Any,
}
use libspaznet.Quic.VarInt.{decode as read_varint}
use libspaznet.Quic.Frame.Encodable.{IsVarint}
use libspaznet.Quic.Frame.Safety.{Safe-IsVarint}
use libspaznet.Quic.Packet.{
  k_max_connection_id_len, read_connection_id, read_ids, LongHeader, place_packet, to_the_end,
  word32, finish_header, read_token, parse_long_header, finish_retry, finish_packet, is_retry,
  LongType, long_type,
}

abbrev IsConnectionId : Bytes → Type 0
IsConnectionId c = length c ≤ k_max_connection_id_len

slice-length : (buf : Bytes) (off n : ℕ) → length (slice buf off n) ≤ n
slice-length buf off n = omega (arith, length-take n (drop off buf))

guard-Safe : (b : Bool) → Safe (guard b) (λ _. b ≡ true)
unfolding guard
guard-Safe true buf off a off' hb lo e = ground arith
guard-Safe false buf off a off' hb lo e = cc e

id_bytes-Safe : (n : ℕ) → n ≤ 20 → Safe (read_bytes n) IsConnectionId
unfolding read_bytes
id_bytes-Safe n small buf off c off' hb lo e = ground (arith, slice-length buf off n)

read_connection_id-Safe : Safe read_connection_id IsConnectionId
unfolding read_connection_id
read_connection_id-Safe = Safe-bind read_byte _ Safe-read_byte λ n byte.
    Safe-bind (guard (leb n k_max_connection_id_len)) (λ _. read_bytes n)
      (guard-Safe (leb n k_max_connection_id_len)) λ _ few. id_bytes-Safe n (ground arith)

abbrev AreIds : ℕ × Bytes × Bytes → Type 0
AreIds ids = IsConnectionId ids.1 × IsConnectionId ids.2

ids-Safe : Safe read_ids AreIds
unfolding read_ids
ids-Safe = Safe-bind (read_bytes 4) _ (Safe-read_bytes 4 (omega arith)) λ v _.
    Safe-bind read_connection_id _ read_connection_id-Safe λ dcid hd.
      Safe-bind read_connection_id _ read_connection_id-Safe
        λ scid hs. Safe-return AreIds (word32 v, dcid, scid) (hd, hs)

-- The connection IDs are short, and the packet is what the offset has passed, inside the datagram.
pub record Sound (datagram : Bytes) (start : ℕ) (hdr : LongHeader) (off : ℕ) : Type 0 where
  pub dcid : length hdr.dcid ≤ 20
  pub scid : length hdr.scid ≤ 20
  pub forward : start < off
  pub inside : off ≤ length datagram
  pub packet : hdr.packet_len ≡ off - start

module _ (datagram : Bytes) (start : ℕ) (hb : IsBuffer datagram) where
  to_the_end-Sound :
      (hdr h : LongHeader) (off' : ℕ)
      → start < length datagram
      → length hdr.dcid ≤ 20
      → length hdr.scid ≤ 20
      → to_the_end start hdr datagram ≡ some (h, off')
      → Sound datagram start h off'
  unfolding to_the_end
  to_the_end-Sound hdr h off' before hd hs e =
      let at_end : length datagram ≡ off' = ground arith in
      let same : record hdr { pn_offset = 0; packet_len = length datagram - start } ≡ h =
        ground arith in
      subst (λ x. Sound datagram start x off') same
        (record {
          dcid = hd;
          scid = hs;
          forward = omega arith;
          inside = omega arith;
          packet = omega arith;
        })

  place_packet-Sound :
      (hdr h : LongHeader) (size off off' : ℕ)
      → start < off
      → off ≤ length datagram
      → IsVarint size
      → length hdr.dcid ≤ 20
      → length hdr.scid ≤ 20
      → place_packet start hdr size datagram off ≡ some (h, off')
      → Sound datagram start h off'
  unfolding place_packet
  place_packet-Sound hdr h size off off' before inside small hd hs e =
      elim (Bool-cases (ltb (length datagram) (add64 off size))) [
        | inl over ↦ absurd (cc (rw over at e))
        | inr fits ↦
            let e' = rw fits at e in
            let end : add64 off size ≡ off' = ground arith in
            let same : record hdr {
              size = size;
              pn_offset = off;
              packet_len = add64 (sub64 off start) size;
            }
                ≡ h =
              cc e' in
            subst (λ x. Sound datagram start x off') same
              (record {
                dcid = hd;
                scid = hs;
                forward = ground (arith, hb.1);
                inside = ground (arith, hb.1);
                packet = ground (arith, hb.1);
              })
      ]

  finish_retry-Sound :
      (hdr h : LongHeader) (off off' : ℕ)
      → start < length datagram
      → length hdr.dcid ≤ 20
      → length hdr.scid ≤ 20
      → finish_retry start hdr datagram off ≡ some (h, off')
      → Sound datagram start h off'
  unfolding finish_retry
  finish_retry-Sound hdr h off off' before hd hs e =
      elim (Bool-cases (ltb (length datagram) (add64 off 16))) [
        | inl short ↦ absurd (cc (rw short at e))
        | inr room ↦
            to_the_end-Sound
              (record hdr { token = slice datagram off (length datagram - 16 - off) }) h off' before
              hd hs (rw room at e)
      ]

  token-Safe : (t : LongType) (old : Bytes) → Safe (read_token t old) Any
  unfolding read_token
  token-Safe LongType.initial old =
      Safe-bind read_varint read_bytes Safe-IsVarint λ n small. Safe-read_bytes n (omega arith)
  token-Safe LongType.zero_rtt old = Safe-return Any old tt
  token-Safe LongType.handshake old = Safe-return Any old tt
  token-Safe LongType.retry old = Safe-return Any old tt

  finish_packet-Sound :
      (hdr h : LongHeader) (off off' : ℕ)
      → start < off
      → off ≤ length datagram
      → length hdr.dcid ≤ 20
      → length hdr.scid ≤ 20
      → finish_packet start hdr datagram off ≡ some (h, off')
      → Sound datagram start h off'
  unfolding finish_packet
  finish_packet-Sound hdr h off off' before inside hd hs e =
      let (token, m₁, e₁, r₁) =
        bind-eq-some (read_token hdr.type_of hdr.token)
          (λ token. (read_varint >>= place_packet start (record hdr { token = token }))) datagram
          off e in
      let (size, m₂, e₂, r₂) =
        bind-eq-some read_varint (place_packet start (record hdr { token = token })) datagram m₁
          r₁ in
      let (_, up₁, in₁) = token-Safe hdr.type_of hdr.token datagram off token m₁ hb inside e₁ in
      let (small, up₂, in₂) = Safe-IsVarint datagram m₁ size m₂ hb in₁ e₂ in
      place_packet-Sound (record hdr { token = token }) h size m₂ off' (omega arith) in₂ small hd hs
        r₂

  finish_header-Sound :
      (hdr h : LongHeader) (off off' : ℕ)
      → start < off
      → off ≤ length datagram
      → length hdr.dcid ≤ 20
      → length hdr.scid ≤ 20
      → finish_header start hdr datagram off ≡ some (h, off')
      → Sound datagram start h off'
  unfolding finish_header
  finish_header-Sound hdr h off off' before inside hd hs e = elim (Bool-cases (hdr.version == 0)) [
    | inl negotiation ↦ to_the_end-Sound hdr h off' (omega arith) hd hs (rw negotiation at e)
    | inr versioned ↦ elim (Bool-cases (is_retry hdr.type_of)) [
      | inl retried ↦
          finish_retry-Sound hdr h off off' (omega arith) hd hs (rw (versioned, retried) at e)
      | inr other ↦
          finish_packet-Sound hdr h off off' before inside hd hs (rw (versioned, other) at e)
    ]
  ]

-- Whatever the datagram, shorter than 2 ^ 63 bytes, and the header that the caller passes in, a
-- header that `parse_long_header` accepts has connection IDs of at most 20 bytes, and its packet
-- starts where the parse did and ends where the offset is left, inside the datagram.
pub parse_long_header-Sound :
    (datagram : Bytes) (start off' : ℕ) (before h : LongHeader)
    → IsBuffer datagram
    → parse_long_header before datagram start ≡ some (h, off')
    → Sound datagram start h off'
unfolding parse_long_header
parse_long_header-Sound datagram start off' before h hb e =
    elim (Bool-cases (leb (length datagram) start)) [
      | inl past ↦ absurd (cc (rw past at e))
      | inr here ↦ elim (Bool-cases (bit_and (get_or datagram start 0) 0x80 == 0)) [
        | inl short ↦ absurd (cc (rw (here, short) at e))
        | inr long ↦
            let (ids, mid, e₁, e₂) =
              bind-eq-some read_ids
                (λ ids. finish_header start (record before {
                  type_of = long_type (get_or datagram start 0);
                  version = ids.0;
                  dcid = ids.1;
                  scid = ids.2;
                }))
                datagram (start + 1) (rw (here, long) at e) in
            let (h_ids, up, inside) = ids-Safe datagram (start + 1) ids mid hb (ground arith) e₁ in
            finish_header-Sound datagram start hb _ h mid off' (omega arith) inside h_ids.0 h_ids.1
              e₂
      ]
    ]
