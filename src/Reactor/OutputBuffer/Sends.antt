-- ===== src/Reactor/OutputBuffer/Sends.antt =====
-- `try_flush` hands the queued bytes to the socket in their order, each once.
use libspaznet.Base.{
  ltb, leb, ◌==◌, if◌then◌else◌, leb→le, Bool-cases, Bytes, length, take, drop, length-append,
  length-drop, take-append-drop, drop-add, suc, ◌+◌, ◌≤◌, ◌<◌, min, ◌≡◌, refl, sym, ap, ◌∙◌, ◌≢◌,
  inl, inr, List, [], ◌∷◌, ◌++◌, append-nil, append_assoc, arith,
}
use libspaznet.Wire.Slices.{drop_within, drop_all}
use libspaznet.Reactor.OutputBuffer.{
  OutputBuffer, empty_output, pending, append_copy, append, SendAnswer, accepted, nothing, retry,
  broken, Result, flushed, would_block, error, Flush, stop, try_flush,
}

-- The bytes that wait.
abbrev pub queued : OutputBuffer → Bytes
queued o = drop o.read_pos o.buf

abbrev pub IsOutput : OutputBuffer → Type 0
IsOutput o = o.read_pos ≤ length o.buf

pub length-queued : (o : OutputBuffer) → length (queued o) ≡ pending o
length-queued o = length-drop o.read_pos o.buf

-- What a flush that started with `waiting` bytes behind `wire` owes.
pub record Sends (wire waiting : Bytes) (f : Flush) : Type 0 where
  pub is : IsOutput f.output
  pub kept : f.wire ++ queued f.output ≡ wire ++ waiting
  pub done : f.result ≡ flushed → pending f.output ≡ 0
  pub left : f.result ≢ flushed → 0 < pending f.output

stop-Sends :
    (r : Result) (o : OutputBuffer) (wire : Bytes)
    → IsOutput o
    → r ≢ flushed
    → Sends wire
        (queued o)
        (if ltb o.read_pos (length o.buf) then stop r o wire else stop flushed empty_output wire)
stop-Sends r o wire h other = elim (Bool-cases (ltb o.read_pos (length o.buf))) [
  | inl more ↦ rw more (record {
    is = h;
    kept = refl;
    done = λ e. absurd (other e);
    left = λ e. ground (arith, more);
  })
  | inr none_left ↦ rw none_left (record {
    is = omega arith;
    kept =
        ap (λ (xs : Bytes). wire ++ xs)
          (sym (drop_all o.read_pos o.buf (ground (arith, none_left))));
    done = λ e. omega arith;
    left = λ e. absurd (e refl);
  })
]

pub try_flush-Sends :
    (answers : List SendAnswer) (o : OutputBuffer) (wire : Bytes)
    → IsOutput o
    → Sends wire (queued o) (try_flush answers o wire)
unfolding try_flush
try_flush-Sends [] o wire h = stop-Sends would_block o wire h (λ e. cc e)
try_flush-Sends (nothing ∷ rest) o wire h = stop-Sends would_block o wire h (λ e. cc e)
try_flush-Sends (retry ∷ rest) o wire h = stop-Sends would_block o wire h (λ e. cc e)
try_flush-Sends (broken ∷ rest) o wire h = stop-Sends error o wire h (λ e. cc e)
try_flush-Sends (accepted more ∷ rest) o wire h =
    elim (Bool-cases (ltb o.read_pos (length o.buf))) [
      | inr none_left ↦ rw none_left (record {
        is = omega arith;
        kept =
            ap (λ (xs : Bytes). wire ++ xs)
              (sym (drop_all o.read_pos o.buf (ground (arith, none_left))));
        done = λ e. omega arith;
        left = λ e. absurd (e refl);
      })
      | inl some_left ↦
          let n = min (suc more) (pending o) in
          let sent = take n (queued o) in
          let ih =
            try_flush-Sends rest (record o { read_pos = o.read_pos + n }) (wire ++ sent)
              (omega (arith, h)) in
          rw some_left (record {
            is = ih.is;
            kept =
                ih.kept
                ∙ append_assoc wire sent (drop (o.read_pos + n) o.buf)
                ∙ ap (λ (xs : Bytes). wire ++ xs)
                    (rw (drop-add o.read_pos n o.buf) (take-append-drop n (queued o)));
            done = ih.done;
            left = ih.left;
          })
    ]

-- `append` puts bytes behind those that wait.
pub append-queued :
    (bytes : Bytes) (o : OutputBuffer)
    → IsOutput o
    → IsOutput (append bytes o) × (queued (append bytes o) ≡ queued o ++ bytes)
unfolding append append_copy
append-queued bytes o h = elim (Bool-cases (length bytes == 0)) [
  | inl none_new ↦
      let e : bytes ≡ [] = empty bytes (ground (arith, none_new)) in
      rw none_new (h, rw e (sym (append-nil (queued o))))
  | inr some_new ↦ elim (Bool-cases (leb (length o.buf) o.read_pos)) [
    | inl drained ↦
        rw (some_new, drained)
          (
            omega arith,
            rw (drop_all o.read_pos o.buf (leb→le (length o.buf) o.read_pos drained)) refl,
          )
    | inr waiting ↦
        rw (some_new, waiting)
          (omega (arith, h, length-append o.buf bytes), drop_within o.read_pos o.buf bytes h)
  ]
]
  where
    empty : (xs : Bytes) → length xs ≡ 0 → xs ≡ []
    empty [] e = refl
    empty (x ∷ xs) e = absurd (omega arith)
