-- ===== src/Reactor/OutputBuffer/Progress.antt =====
-- A socket that does not break takes what there is to send, at least a byte in a flush.
use libspaznet.Base.{
  ltb, if◌then◌else◌, Bool-cases, Bytes, length, take, drop, ℕ, suc, ◌+◌, ◌-◌, ◌≤◌, min, ◌≡◌, ◌≢◌,
  inl, inr, Bool, true, false, List, [], ◌∷◌, ◌++◌, arith,
}
use libspaznet.Reactor.OutputBuffer.{
  OutputBuffer, empty_output, pending, SendAnswer, Result, Flush, stop, try_flush, accepted,
  nothing, retry, broken, flushed, would_block, error,
}

-- Whether no answer says that the socket is broken.
unfoldable pub unbroken : List SendAnswer → Bool
unbroken [] = true
unbroken (accepted more ∷ rest) = unbroken rest
unbroken (nothing ∷ rest) = unbroken rest
unbroken (retry ∷ rest) = unbroken rest
unbroken (broken ∷ rest) = false

-- A flush that does not fail, and leaves no more than there was.
abbrev Fine : OutputBuffer → Flush → Type 0
Fine o f = (f.result ≢ error) × (pending f.output ≤ pending o)

stop-Fine :
    (r : Result) (o : OutputBuffer) (wire : Bytes)
    → r ≢ error
    → Fine o
        (if ltb o.read_pos (length o.buf) then stop r o wire else stop flushed empty_output wire)
stop-Fine r o wire other = pick (ltb o.read_pos (length o.buf))
  where
    pick : (b : Bool) → Fine o (if b then stop r o wire else stop flushed empty_output wire)
    pick true = (other, omega arith)
    pick false = ((λ e. cc e), omega arith)

try_flush-Fine :
    (answers : List SendAnswer) (o : OutputBuffer) (wire : Bytes)
    → unbroken answers ≡ true
    → Fine o (try_flush answers o wire)
unfolding try_flush unbroken
try_flush-Fine [] o wire h = stop-Fine would_block o wire (λ e. cc e)
try_flush-Fine (nothing ∷ rest) o wire h = stop-Fine would_block o wire (λ e. cc e)
try_flush-Fine (retry ∷ rest) o wire h = stop-Fine would_block o wire (λ e. cc e)
try_flush-Fine (broken ∷ rest) o wire h = absurd (cc h)
try_flush-Fine (accepted more ∷ rest) o wire h = elim (Bool-cases (ltb o.read_pos (length o.buf))) [
  | inr none_left ↦ rw none_left ((λ e. cc e), omega arith)
  | inl some_left ↦
      let n = min (suc more) (pending o) in
      let (fine, few) =
        try_flush-Fine rest (record o { read_pos = o.read_pos + n })
          (wire ++ take n (drop o.read_pos o.buf)) h in
      rw some_left (fine, omega (arith, few))
]

-- With a socket that takes something first, a flush takes at least a byte, where there is one.
pub try_flush-progress :
    (more : ℕ) (answers : List SendAnswer) (o : OutputBuffer) (wire : Bytes)
    → unbroken answers ≡ true
    → ((try_flush (accepted more ∷ answers) o wire).result ≢ error)
      × (pending (try_flush (accepted more ∷ answers) o wire).output ≤ pending o - 1)
unfolding try_flush
try_flush-progress more answers o wire h = elim (Bool-cases (ltb o.read_pos (length o.buf))) [
  | inr none_left ↦ rw none_left ((λ e. cc e), omega arith)
  | inl some_left ↦
      let n = min (suc more) (pending o) in
      let (fine, few) =
        try_flush-Fine answers (record o { read_pos = o.read_pos + n })
          (wire ++ take n (drop o.read_pos o.buf)) h in
      rw some_left (fine, omega (arith, few))
]
