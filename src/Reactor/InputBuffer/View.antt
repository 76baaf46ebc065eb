-- ===== src/Reactor/InputBuffer/View.antt =====
-- The buffer is a queue of bytes: a read puts bytes at its end, `consume` takes them from its front.
use libspaznet.Base.{
  ltb, ◌==◌, if◌then◌else◌, ==_iff, Bool-cases, Bytes, length, take, drop, replicate, length-append,
  length-take, length-drop, length-replicate, take-append, drop-add, ℕ, ◌+◌, ◌-◌, ◌≤◌, min, ◌≡◌,
  refl, sym, ap, ◌∙◌, inl, inr, Bool, true, false, ◌&&◌, [], ◌++◌, append-nil, append_assoc, arith,
}
use libspaznet.Wire.Slices.{take_within, drop_within, drop_all, drop-take}
use libspaznet.Reactor.InputBuffer.{
  InputBuffer, compact, grow, contents, consume, compact_if, receive, prepare, commit, fill, room,
}

pub record IsInput (b : InputBuffer) : Type 0 where
  pub forward : b.read_pos ≤ b.write_pos
  pub inside : b.write_pos ≤ length b.buf

-- The same bytes, in a buffer that is in order.
record Same (b b' : InputBuffer) : Type 0 where
  is : IsInput b'
  same : contents b' ≡ contents b

length-contents : (b : InputBuffer) → IsInput b → length (contents b) ≡ b.write_pos - b.read_pos
unfolding contents
length-contents b h = omega (
  arith,
  length-take (b.write_pos - b.read_pos) (drop b.read_pos b.buf),
  length-drop b.read_pos b.buf,
  h.forward,
  h.inside,
)

compact-Same : (b : InputBuffer) → IsInput b → Same b (compact b)
unfolding compact contents
compact-Same b h =
    let n = b.write_pos - b.read_pos in
    let kept = take n (drop b.read_pos b.buf) in
    let sized : length kept ≡ n = length-contents b h in
    record {
      is = record {
        forward = omega arith;
        inside = omega (arith, length-append kept (drop n b.buf), sized);
      };
      same =
          let e : n - 0 ≡ n = omega arith in
          rw (e, take_within n kept (drop n b.buf) (omega arith)) (rw sized at (take_all kept));
    }
  where
    take_all : (xs : Bytes) → take (length xs) xs ≡ xs
    take_all xs = rw append-nil at (take-append xs [])

grow-Same : (m : ℕ) (b : InputBuffer) → IsInput b → Same b (grow m b)
unfolding grow contents
grow-Same m b h = elim (Bool-cases (ltb (length b.buf - b.write_pos) m)) [
  | inr n ↦ rw n (record { is = h; same = refl })
  | inl y ↦
      let more : Bytes = replicate (b.write_pos + m - length b.buf) 0 in
      let size = b.write_pos - b.read_pos in
      rw y (record {
        is = record {
          forward = h.forward;
          inside = omega (arith, length-append b.buf more, h.inside);
        };
        same = rw (drop_within b.read_pos b.buf more (omega (arith, h.forward, h.inside))) (
            take_within size (drop b.read_pos b.buf) more
              (omega (arith, length-drop b.read_pos b.buf, h.inside)));
      })
]

compact_if-Same : (m : ℕ) (b : InputBuffer) → IsInput b → Same b (compact_if m b)
unfolding compact_if
compact_if-Same m b h = pick (ltb 0 b.read_pos && ltb (length b.buf - b.write_pos) m)
  where
    pick : (c : Bool) → Same b (if c then compact b else b)
    pick true = compact-Same b h
    pick false = record { is = h; same = refl }

prepare-Same : (m : ℕ) (b : InputBuffer) → IsInput b → Same b (prepare m b)
unfolding prepare
prepare-Same m b h =
    let first = compact_if-Same m b h in
    let second = grow-Same m (compact_if m b) first.is in
    record { is = second.is; same = second.same ∙ first.same }

-- There is room for what was asked for.
pub room-prepare : (m : ℕ) (b : InputBuffer) → m ≤ room (prepare m b)
unfolding prepare grow
room-prepare m b =
    let c = compact_if m b in
    elim (Bool-cases (ltb (length c.buf - c.write_pos) m)) [
      | inr n ↦ rw n (ground (arith, n))
      | inl y ↦
          let more : Bytes = replicate (c.write_pos + m - length c.buf) 0 in
          rw y (
            omega (
              arith,
              length-append c.buf more,
              length-replicate {A = ℕ} (c.write_pos + m - length c.buf) 0,
            ))
    ]

fill-Same :
    (bytes : Bytes) (b : InputBuffer)
    → IsInput b
    → length bytes ≤ room b
    → IsInput (commit (length bytes) (fill bytes b))
      × (contents (commit (length bytes) (fill bytes b)) ≡ contents b ++ bytes)
unfolding commit fill contents
fill-Same bytes b h fits =
    let front = take b.write_pos b.buf in
    let rest = drop (b.write_pos + length bytes) b.buf in
    let held = contents b in
    let sized : length front ≡ b.write_pos =
      omega (arith, length-take b.write_pos b.buf, h.inside) in
    let kept : drop b.read_pos (front ++ (bytes ++ rest)) ≡ held ++ (bytes ++ rest) =
      drop_within b.read_pos front (bytes ++ rest) (omega (arith, h.forward, sized))
      ∙ ap (λ (xs : Bytes). xs ++ (bytes ++ rest)) (drop-take b.read_pos b.write_pos b.buf) in
    let count : b.write_pos + length bytes - b.read_pos ≡ length (held ++ bytes) =
      omega (arith, length-append held bytes, length-contents b h, h.forward) in
    (
      record {
        forward = omega (arith, h.forward);
        inside = omega (
          arith,
          length-append front (bytes ++ rest),
          length-append bytes rest,
          length-drop (b.write_pos + length bytes) b.buf,
          sized,
          h.inside,
        );
      },
      rw (kept, count, ← append_assoc held bytes rest) (take-append (held ++ bytes) rest),
    )

-- A read appends to the queue as much of what there is to read as there is room for, and the buffer
-- has room for at least what `prepare` was asked for.
pub receive-contents :
    (m : ℕ) (bytes : Bytes) (b : InputBuffer)
    → IsInput b
    → IsInput (receive m bytes b)
      × (contents (receive m bytes b) ≡ contents b ++ take (room (prepare m b)) bytes)
      × (m ≤ room (prepare m b))
unfolding receive
receive-contents m bytes b h =
    let before = prepare-Same m b h in
    let got = take (room (prepare m b)) bytes in
    let (is, same) =
      fill-Same got (prepare m b) before.is
        (omega (arith, length-take (room (prepare m b)) bytes)) in
    (is, same ∙ ap (λ (xs : Bytes). xs ++ got) before.same, room-prepare m b)

-- `consume` takes bytes from the front of the queue, all of them at most.
pub consume-contents :
    (n : ℕ) (b : InputBuffer)
    → IsInput b
    → IsInput (consume n b) × (contents (consume n b) ≡ drop n (contents b))
unfolding consume contents
consume-contents n b h =
    let size = b.write_pos - b.read_pos in
    let k = min n size in
    elim (Bool-cases (b.read_pos + k == b.write_pos)) [
      | inl all ↦
          let e : b.read_pos + k ≡ b.write_pos = (==_iff (b.read_pos + k) b.write_pos).0 all in
          rw all (
            record { forward = omega arith; inside = omega arith },
            sym (drop_all n (contents b) (omega (arith, length-contents b h, h.forward))),
          )
      | inr some_left ↦
          let few : k ≡ n = ground (arith, some_left, h.forward) in
          let count : b.write_pos - (b.read_pos + n) ≡ size - n = omega arith in
          rw some_left (
            record { forward = omega (arith, h.forward); inside = h.inside },
            rw (few, count, drop-add b.read_pos n b.buf)
                (sym (drop-take n size (drop b.read_pos b.buf))),
          )
    ]
