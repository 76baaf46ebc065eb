-- ===== src/Quic/Frame/Payload.antt =====
-- A whole payload: the frames that were encoded one after the other, and what `parse_frames` finds.
use libspaznet.Base.{
  lt→ltb, ltb-ge, Bytes, length, All, length-append, ℕ, zero, suc, ◌+◌, ◌^◌, ◌≤◌, ◌<◌, ◌≡◌, refl,
  sym, ap, ◌∙◌, true, false, ◌&&◌, some, List, [], ◌∷◌, ◌++◌, append-nil, append_assoc, arith,
}
use libspaznet.Wire.Reader.{◌>>=◌}
use libspaznet.Wire.Writer.{for_each}
use libspaznet.Wire.RoundTrip.{At, At-whole, Emits, Emits-done, Emits-seq, At-skip}
use libspaznet.Quic.VarInt.{write_case, decode as read_varint}
use libspaznet.Quic.VarInt.RoundTrip.{Parses-decode}
use libspaznet.Quic.Frame.{Frame}
use libspaznet.Quic.Frame.Parse.{
  parse_frame, parse_loop, parse_body, frames, parse_padding, parse_frames,
}
use libspaznet.Quic.Frame.Encode.{encode_frame}
use libspaznet.Quic.Frame.Encodable.{IsEncodable, as_parsed, is_padding, Follows}
use libspaznet.Quic.Frame.RoundTrip.{Wire, wire, parse_frame-bind}
use mathlib.Core.List.{map}

-- No padding frame stands directly behind another: on the wire the two would be one.
abbrev pub Separated : List Frame → Type 0
Separated [] = Unit
Separated (f ∷ []) = Unit
Separated (f ∷ g ∷ fs) = ((is_padding f && is_padding g) ≡ false) × Separated (g ∷ fs)

-- The bytes of the frames, each with what it stands for.
abbrev Wires : List Frame → Bytes → Type 0
Wires [] bs = bs ≡ []
Wires (f ∷ fs) bs = (cs : Bytes) × (ds : Bytes) × (bs ≡ cs ++ ds) × Wire f cs × Wires fs ds

wires :
    (fs : List Frame)
    → All IsEncodable fs
    → (bs : Bytes) × Wires fs bs × Emits (for_each encode_frame fs) bs
unfolding for_each
wires [] h = ([], refl, Emits-done)
wires (f ∷ fs) (h, hs) =
    let (cs, w) = wire f h in
    let (ds, ws, rest) = wires fs hs in
    (cs ++ ds, (cs, ds, refl, w, ws), Emits-seq (encode_frame f) _ w.emits rest)

plain-Follows : (f : Frame) (rest : Bytes) → is_padding f ≡ false → Follows f rest
plain-Follows (Frame.padding x) rest e = cc
plain-Follows _ rest e = tt

parsed_padding : (f : Frame) → is_padding (as_parsed f) ≡ is_padding f
parsed_padding (Frame.padding x) = refl
parsed_padding _ = refl

-- What begins with a zero is parsed as padding.
zero_is_padding :
    (cs : Bytes) (f : Frame) (n : ℕ)
    → length cs < 2 ^ 62
    → parse_frame (0 ∷ cs) 0 ≡ some (f, n)
    → is_padding f ≡ true
unfolding parse_body parse_padding
zero_is_padding cs f n room e = ground (arith, at_one)
  where
    read : read_varint (0 ∷ cs) 0 ≡ some (0, 1)
    read =
        unfold write_case in
        Parses-decode 0 (omega arith) (0 ∷ cs) 0 cs (At-whole (0 ∷ cs) (omega arith))

    at_one : parse_padding (0 ∷ cs) 1 ≡ some (f, n)
    at_one = rw (read, ◌>>=◌) at (sym (parse_frame-bind (0 ∷ cs) 0) ∙ e)

-- Padding is followed by a frame that does not begin with a zero.
follows :
    (f : Frame) (fs : List Frame) (bs : Bytes)
    → Separated (f ∷ fs)
    → Wires fs bs
    → length bs < 2 ^ 62
    → Follows f bs
follows (Frame.padding x) fs [] s ws room = tt
follows (Frame.padding x) [] (b ∷ bs) s ws room = cc ws
follows (Frame.padding x) (g ∷ fs) (b ∷ bs) (plain, s) (cs, ds, e, w, ws) room = λ zero.
    let whole : b ∷ bs ≡ cs ++ ds = e in
    let parsed =
      w.parses (b ∷ bs) 0 ds (rw (← e) (At-whole (b ∷ bs) (omega arith)))
        (plain-Follows g ds plain) in
    cc (
      zero_is_padding bs (as_parsed g) _ (omega arith) (rw zero at parsed),
      parsed_padding g,
      plain,
    )
follows _ fs bs s ws room = tt

Separated-tail : (f : Frame) (fs : List Frame) → Separated (f ∷ fs) → Separated fs
Separated-tail f [] s = tt
Separated-tail f (g ∷ fs) s = s.1

loop_done :
    (fuel : ℕ) (payload : Bytes) (off : ℕ) (out : List Frame)
    → length payload ≤ off
    → parse_loop fuel payload off out ≡ frames out
unfolding parse_loop
loop_done zero payload off out h = rw (ltb-ge off (length payload) h)
loop_done (suc fuel) payload off out h = rw (ltb-ge off (length payload) h)

loop_step :
    (fuel : ℕ) (payload : Bytes) (off : ℕ) (out : List Frame) (f : Frame) (off' : ℕ)
    → off < length payload
    → parse_frame payload off ≡ some (f, off')
    → parse_loop (suc fuel) payload off out ≡ parse_loop fuel payload off' (out ++ f ∷ [])
unfolding parse_loop
loop_step fuel payload off out f off' h e = rw (lt→ltb off (length payload) h, e)

loop-Wires :
    (fs : List Frame) (fuel : ℕ) (payload : Bytes) (off : ℕ) (bs : Bytes) (out : List Frame)
    → Separated fs
    → Wires fs bs
    → At payload off bs
    → length payload < 2 ^ 62
    → length bs ≤ fuel
    → parse_loop fuel payload off out ≡ frames (out ++ map as_parsed fs)
loop-Wires [] fuel payload off bs out s ws at room enough =
    loop_done fuel payload off out (omega (arith, at.ends, ap (length {A = ℕ}) ws))
    ∙ ap frames (sym (append-nil out))
loop-Wires (f ∷ fs) zero payload off bs out s (cs, ds, e, w, ws) at room enough =
    absurd (omega (arith, w.nonempty, ap (length {A = ℕ}) e, length-append cs ds))
loop-Wires (f ∷ fs) (suc fuel) payload off bs out s (cs, ds, e, w, ws) at room enough =
    loop_step fuel payload off out (as_parsed f) (off + length cs)
      (omega (arith, at.ends, w.nonempty, sizes)) parsed
    ∙ loop-Wires fs fuel payload (off + length cs) ds (out ++ as_parsed f ∷ [])
        (Separated-tail f fs s) ws (At-skip payload off cs ds here) room
        (omega (arith, w.nonempty, sizes))
    ∙ ap frames (append_assoc out (as_parsed f ∷ []) (map as_parsed fs))
  where
    sizes : length bs ≡ length cs + length ds
    sizes = omega (arith, ap (length {A = ℕ}) e, length-append cs ds)

    here : At payload off (cs ++ ds)
    here = rw e at at

    parsed : parse_frame payload off ≡ some (as_parsed f, off + length cs)
    parsed = w.parses payload off ds here (follows f fs ds s ws (omega (arith, at.ends, sizes)))

-- A payload of fewer than 2 ^ 62 bytes that holds encodable frames, written one after the other,
-- with no two padding frames in a row, parses into exactly those frames, in order (each as
-- `as_parsed` says).
pub parse_frames-encode_frame :
    (fs : List Frame) (payload : Bytes)
    → All IsEncodable fs
    → Separated fs
    → for_each encode_frame fs [] ≡ some payload
    → length payload < 2 ^ 62
    → parse_frames payload ≡ frames (map as_parsed fs)
unfolding parse_frames
parse_frames-encode_frame fs payload h s e room =
    let (bs, ws, emits) = wires fs h in
    let whole : bs ≡ payload = cc (emits []) in
    loop-Wires fs (length payload) payload 0 payload [] s (rw whole at ws)
      (At-whole payload (omega arith)) room (omega arith)

-- Every list of encodable frames can be written: `encode_frame` throws at none of them.
pub encode_frame-some :
    (fs : List Frame) (out : Bytes)
    → All IsEncodable fs
    → (bs : Bytes) × (for_each encode_frame fs out ≡ some (out ++ bs))
encode_frame-some fs out h = let (bs, ws, emits) = wires fs h in (bs, emits out)
