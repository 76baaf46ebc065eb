-- ===== src/Quic/Stream/Send/Acked.antt =====
-- After `on_acked` the buffer has the written bytes from its base offset on; Known says which bytes
-- lie before it.
use libspaznet.Base.{
  ◌==◌, if◌then◌else◌, Bool-cases, Bytes, add64, ℕ, ◌+◌, ◌≤◌, inl, inr, Bool, true, false, List, [],
  ◌∷◌, ◌++◌,
}
use libspaznet.Quic.Stream.Send.{
  SendSide, all_sent, before, insert_sorted, sort, release, compact,
  try_advance_send_state_after_ack, on_fin_acked, note_fin_acked, on_acked,
}
use libspaznet.Quic.Stream.Send.Buffer.{Represents, AllSent, release-Represents, compact-Represents}

insert_sorted-AllSent :
    (s : SendSide) (first size : ℕ) (rs : List (ℕ × ℕ))
    → first + size ≤ s.next_offset
    → AllSent s rs
    → AllSent s (insert_sorted (first, size) rs)
unfolding insert_sorted
insert_sorted-AllSent s first size [] h hs = (h, tt)
insert_sorted-AllSent s first size ((a, b) ∷ rs) h (ha, hs) =
    elim (Bool-cases (before (first, size) (a, b))) [
      | inl front ↦ rw front (h, (ha, hs))
      | inr later ↦ rw later (ha, insert_sorted-AllSent s first size rs h hs)
    ]

pub sort-AllSent : (s : SendSide) (rs : List (ℕ × ℕ)) → AllSent s rs → AllSent s (sort rs)
unfolding sort
sort-AllSent s [] hs = tt
sort-AllSent s ((a, b) ∷ rs) (h, hs) =
    insert_sorted-AllSent s a b (sort rs) h (sort-AllSent s rs hs)

pub AllSent-append :
    (s : SendSide) (first size : ℕ) (rs : List (ℕ × ℕ))
    → first + size ≤ s.next_offset
    → AllSent s rs
    → AllSent s (rs ++ (first, size) ∷ [])
AllSent-append s first size [] h hs = (h, tt)
AllSent-append s first size ((a, b) ∷ rs) h (ha, hs) = (ha, AllSent-append s first size rs h hs)

module _ (whole : Bytes) where
  advance-Represents :
      (s : SendSide) → Represents whole s → Represents whole (try_advance_send_state_after_ack s)
  unfolding try_advance_send_state_after_ack
  advance-Represents s r = record {
    short = r.short;
    stored = r.stored;
    live = r.live;
    head = r.head;
    base = r.base;
    next = r.next;
    high = r.high;
  }

  note-Represents :
      (end : ℕ) (s : SendSide) → Represents whole s → Represents whole (note_fin_acked end s)
  unfolding note_fin_acked
  note-Represents end s r = record {
    short = r.short;
    stored = r.stored;
    live = r.live;
    head = r.head;
    base = r.base;
    next = r.next;
    high = r.high;
  }

  either-Represents :
      (b : Bool) (s t : SendSide)
      → Represents whole s
      → Represents whole t
      → Represents whole (if b then s else t)
  either-Represents true s t hs ht = hs
  either-Represents false s t hs ht = ht

  fin-Represents : (s : SendSide) → Represents whole s → Represents whole (on_fin_acked s)
  unfolding on_fin_acked
  fin-Represents s r =
      either-Represents s.fin_sent
        (try_advance_send_state_after_ack (record s { fin_acked = true })) s
        (advance-Represents (record s { fin_acked = true })
          (record {
            short = r.short;
            stored = r.stored;
            live = r.live;
            head = r.head;
            base = r.base;
            next = r.next;
            high = r.high;
          }))
        r

-- An acknowledgement of bytes that were sent, in any order with the others of such bytes, leaves
-- the buffer with exactly the written bytes from its base offset on, compacted or not.
pub on_acked-Represents :
    (whole : Bytes) (offset size : ℕ) (s : SendSide)
    → offset + size ≤ s.next_offset
    → AllSent s s.acked_ranges
    → Represents whole s
    → Represents whole (on_acked offset size s)
unfolding on_acked
on_acked-Represents whole offset size s sent all_sent r = elim (Bool-cases (size == 0)) [
  | inl none_new ↦ rw none_new (fin-Represents whole s r)
  | inr some_new ↦
      let ranges : List (ℕ × ℕ) = sort (s.acked_ranges ++ (offset, size) ∷ []) in
      let known : AllSent s ranges =
        sort-AllSent s (s.acked_ranges ++ (offset, size) ∷ [])
          (AllSent-append s offset size s.acked_ranges sent all_sent) in
      rw some_new (
        advance-Represents whole (note_fin_acked (add64 offset size) (compact (release ranges s))) (
          note-Represents whole (add64 offset size) (compact (release ranges s)) (
            compact-Represents whole (release ranges s)
              (release-Represents whole ranges s known r))))
]
