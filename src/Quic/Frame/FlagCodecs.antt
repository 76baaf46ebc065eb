-- ===== src/Quic/Frame/FlagCodecs.antt =====
-- The alternative of `Frame` with a list and a flag: ACK.
use libspaznet.Base.{
  leb, if◌then◌else◌, le→leb, Bytes, length, All, length-append, ℕ, ◌-◌, ◌*◌, ◌/◌, ◌≤◌, ◌≡◌, refl,
  sym, subst, Bool, true, false, List, [], ◌∷◌, ◌++◌, arith,
}
use libspaznet.Wire.Reader.{Reader, ◌>>=◌, guard, remaining, read_many}
use libspaznet.Wire.Writer.{Writer, for_each, ◌>>◌ as seq, when}
use libspaznet.Wire.RoundTrip.{
  Parses-read_many, Emits-for_each, all_bytes, At, Emits, Parses, Emits-seq, Parses-bind,
  Parses-map,
}
use libspaznet.Wire.Codec.{Codec, Codec-bind, Codec-map, Codec-return}
use libspaznet.Quic.VarInt.{append, write_case, decode as read_varint}
use libspaznet.Quic.VarInt.RoundTrip.{varint, Emits-append, Parses-decode}
use libspaznet.Quic.Frame.{FrameType, Frame, AckRange, AckFrame, code_of}
use libspaznet.Quic.Frame.Parse.{parse_ack_range, parse_ecn, parse_ack, parse_body}
use libspaznet.Quic.Frame.Encode.{write_ack_range, encode_frame}
use libspaznet.Quic.Frame.Encodable.{IsVarint, IsRange, IsEncodable, as_parsed}
use libspaznet.Quic.Frame.Codecs.{Codec-varint, Decodes}

abbrev range_bytes : AckRange → Bytes
range_bytes r = varint r.gap ++ varint r.length

ranges-Emits :
    (rs : List AckRange) → All IsRange rs → All (λ r. Emits (write_ack_range r) (range_bytes r)) rs
ranges-Emits [] h = tt
ranges-Emits (r ∷ rs) ((h₁, h₂), h) =
    (Emits-seq _ _ (Emits-append r.gap h₁) (Emits-append r.length h₂), ranges-Emits rs h)

ranges-Parses :
    (rs : List AckRange) → All IsRange rs → All (λ r. Parses parse_ack_range (range_bytes r) r) rs
unfolding parse_ack_range
ranges-Parses [] h = tt
ranges-Parses (r ∷ rs) ((h₁, h₂), h) = (
  Parses-bind _ _ _ _ (Parses-decode r.gap h₁)
      (Parses-map _ (λ n. record r { length = n }) _ (Parses-decode r.length h₂)),
  ranges-Parses rs h,
)

varint-pos : (v : ℕ) → 1 ≤ length (varint v)
unfolding write_case
varint-pos v = ground arith

-- Each range takes two bytes at least.
length-ranges : (rs : List AckRange) → 2 * length rs ≤ length (all_bytes range_bytes rs)
length-ranges [] = omega arith
length-ranges (r ∷ rs) = omega (
  arith,
  length-append (range_bytes r) (all_bytes range_bytes rs),
  length-append (varint r.gap) (varint r.length),
  varint-pos r.gap,
  varint-pos r.length,
  length-ranges rs,
)

-- So the test against half of the remaining bytes passes.
Codec-ranges :
    {v : Writer} (k : List AckRange → Reader Frame) (rs : List AckRange) {f : Frame}
    → All IsRange rs
    → Codec v (k rs) f
    → Codec
        (seq (for_each write_ack_range rs) v)
        (remaining >>= λ left.
          (guard (leb (length rs) (left / 2)) >>= λ _.
          (read_many parse_ack_range (length rs) >>= k)))
        f
unfolding guard remaining
Codec-ranges {v} k rs {f} h (bs, hv, hk) = (all ++ bs, emits, parses)
  where
    all : Bytes
    all = all_bytes range_bytes rs

    emits : Emits (seq (for_each write_ack_range rs) v) (all ++ bs)
    emits = Emits-seq _ v (Emits-for_each write_ack_range range_bytes rs (ranges-Emits rs h)) hv

    plain : Parses (read_many parse_ack_range (length rs) >>= k) (all ++ bs) f
    plain =
        Parses-bind _ k _ _ (Parses-read_many parse_ack_range range_bytes rs (ranges-Parses rs h))
          hk

    passes :
        (buf : Bytes) (off : ℕ) (rest : Bytes)
        → At buf off ((all ++ bs) ++ rest)
        → leb (length rs) ((length buf - off) / 2) ≡ true
    passes buf off rest at = le→leb _ _ (
        omega
          (arith, at.ends, length-append (all ++ bs) rest, length-append all bs, length-ranges rs))

    parses :
        Parses
          (remaining >>= λ left.
            (guard (leb (length rs) (left / 2)) >>= λ _.
            (read_many parse_ack_range (length rs) >>= k)))
          (all ++ bs)
          f
    parses buf off rest at = rw (passes buf off rest at, ◌>>=◌) (plain buf off rest at)

Codec-ecn :
    (ecn : Bool) (ect0 ect1 ce : ℕ)
    → IsVarint ect0
    → IsVarint ect1
    → IsVarint ce
    → Codec
        (when ecn (seq (append ect0) (seq (append ect1) (append ce))))
        (parse_ecn ecn)
        (if ecn then ect0 else 0, if ecn then ect1 else 0, if ecn then ce else 0)
unfolding parse_ecn
Codec-ecn true ect0 ect1 ce h₀ h₁ h₂ =
    Codec-bind _ (Codec-varint ect0 h₀)
      (Codec-bind _ (Codec-varint ect1 h₁) (Codec-map (λ n. (ect0, ect1, n)) (Codec-varint ce h₂)))
Codec-ecn false ect0 ect1 ce h₀ h₁ h₂ = Codec-return (0, 0, 0)

-- What stands behind the type of an ACK.
Codec-ack :
    (x : AckFrame)
    → IsEncodable (Frame.ack x)
    → Codec
        (seq (append x.largest_acked) (
          seq (append x.ack_delay) (
            seq (append (length x.ranges)) (
              seq (append x.first_range) (
                seq
                  (for_each write_ack_range x.ranges)
                  (when x.ecn (seq (append x.ect0) (seq (append x.ect1) (append x.ce)))))))))
        (parse_ack x.ecn)
        (as_parsed (Frame.ack x))
unfolding parse_ack
Codec-ack x (h₁, h₂, h₃, h₄, h₅, h₆, h₇, h₈) = Codec-bind _ (Codec-varint x.largest_acked h₁) (
    Codec-bind _ (Codec-varint x.ack_delay h₂) (
      Codec-bind _ (Codec-varint (length x.ranges) h₃) (
        Codec-bind _ (Codec-varint x.first_range h₄) (
          Codec-ranges _ x.ranges h₅ (
            Codec-map
              (λ counts. Frame.ack (record x { ect0 = counts.0; ect1 = counts.1; ce = counts.2 }))
              (Codec-ecn x.ecn x.ect0 x.ect1 x.ce h₆ h₇ h₈))))))

-- A type that depends on a flag, followed by what the test on that type leads to.
pub Codec-typed :
    {w v : Writer} {t : ℕ} {p : Reader Frame} {f : Frame}
    → Codec w read_varint t
    → parse_body t ≡ p
    → Codec v p f
    → Codec (seq w v) (read_varint >>= parse_body) f
Codec-typed {v = v} {f = f} head e c =
    Codec-bind parse_body head (subst (λ q. Codec v q f) (sym e) c)

body_ack :
    (ecn : Bool)
    → parse_body (code_of (if ecn then FrameType.ack_ecn else FrameType.ack)) ≡ parse_ack ecn
unfolding parse_body
body_ack true = refl
body_ack false = refl

pub Decodes-ack : (x : AckFrame) → IsEncodable (Frame.ack x) → Decodes (Frame.ack x)
unfolding encode_frame
Decodes-ack x h = Codec-typed (Codec-varint _ (ground arith)) (body_ack x.ecn) (Codec-ack x h)
