-- ===== src/Quic/Stream/Recv/Delivered.antt =====
-- Which offsets a stream holds after `deliver`.
use libspaznet.Base.{
  ltb, Bool-cases, Bytes, length, drop, length-drop, add64, sub64, ℕ, ◌+◌, ◌-◌, ◌^◌, ◌≤◌, ◌<◌, max,
  ◌≡◌, ◌∙◌, subst, inl, inr, Bool, false, ◌||◌, some, List, [], arith, dec_lt,
}
use libspaznet.Wire.Slices.{drop_all}
use libspaznet.Quic.Stream.Recv.{
  RecvSide, is_reset, put_some, trim_put, breaks_final_size, advance, accept, deliver,
}
use libspaznet.Quic.Stream.Recv.Coverage.{Sorted, in_chunk, covers, starts_at, put_some-covers}

trim_put-covers :
    (cursor off : ℕ) (bytes : Bytes) (chunks : List (ℕ × Bytes)) (q : ℕ)
    → off + length bytes < 2 ^ 62
    → cursor < 2 ^ 62
    → Sorted 0 chunks
    → starts_at (max off cursor) chunks ≡ false
    → cursor ≤ q
    → covers (trim_put cursor off bytes chunks) q ≡ (in_chunk off bytes q || covers chunks q)
unfolding trim_put put_some
trim_put-covers cursor off bytes chunks q small small' s free here =
    elim (Bool-cases (ltb off cursor)) [
      | inr fresh ↦
          let start : max off cursor ≡ off = ground arith in
          rw fresh (put_some-covers off bytes chunks q small s (rw start at free))
      | inl old ↦
          let late : off < cursor = ground arith in
          let start : max off cursor ≡ cursor = omega arith in
          let skip : sub64 cursor off ≡ cursor - off = omega arith in
          let left : length (drop (cursor - off) bytes) ≡ length bytes - (cursor - off) =
            length-drop (cursor - off) bytes in
          elim (dec_lt (off + length bytes) cursor) [
            | yes over ↦
                let none_left : drop (cursor - off) bytes ≡ [] =
                  drop_all (cursor - off) bytes (omega arith) in
                rw (old, skip, none_left) (unread cursor chunks (omega arith))
            | no within ↦
                rw (old, skip)
                  (put_some-covers cursor (drop (cursor - off) bytes) chunks q (omega (arith, left))
                      s (rw start at free)
                    ∙ ground (arith, left))
          ]
    ]
  where
    unread :
        (cursor : ℕ) (chunks : List (ℕ × Bytes))
        → off + length bytes ≤ q
        → covers (put_some cursor [] chunks) q ≡ (in_chunk off bytes q || covers chunks q)
    unread cursor chunks past = ground arith

-- A frame that `deliver` accepts, on a stream that was not reset and whose chunks are in order and
-- below 2 ^ 62 as the frame is, adds its offsets, from the read offset on, to those held, and
-- changes nothing else about them, provided that no chunk starts where its unread part does.
pub deliver-covers :
    (offset : ℕ) (bytes : Bytes) (fin : Bool) (r r' : RecvSide) (q : ℕ)
    → is_reset r.state ≡ false
    → offset + length bytes < 2 ^ 62
    → r.read_offset < 2 ^ 62
    → Sorted 0 r.chunks
    → starts_at (max offset r.read_offset) r.chunks ≡ false
    → deliver offset bytes fin r ≡ some r'
    → r.read_offset ≤ q
    → covers r'.chunks q ≡ (in_chunk offset bytes q || covers r.chunks q)
unfolding deliver accept advance
deliver-covers offset bytes fin r r' q active small cursor s free e here =
    elim (Bool-cases (ltb r.limit (add64 offset (length bytes)))) [
      | inl over ↦ absurd (cc (rw (active, over) at e))
      | inr fits ↦
          elim (Bool-cases (breaks_final_size (add64 offset (length bytes)) fin r.final_size)) [
            | inl broken ↦ absurd (cc (rw (active, fits, broken) at e))
            | inr sound ↦
                let same : accept offset bytes fin r ≡ r' = cc (rw (active, fits, sound) at e) in
                subst (λ x. covers x.chunks q ≡ (in_chunk offset bytes q || covers r.chunks q)) same
                  trimmed
          ]
    ]
  where
    trimmed :
        covers (trim_put r.read_offset offset bytes r.chunks) q
        ≡ (in_chunk offset bytes q || covers r.chunks q)
    trimmed = trim_put-covers r.read_offset offset bytes r.chunks q small cursor s free here
