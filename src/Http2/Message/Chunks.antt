-- ===== src/Http2/Message/Chunks.antt =====
-- How `Response::to_frames` splits a body.
use libspaznet.Base.{
  ltb, leb, ◌==◌, if◌then◌else◌, ltb→lt, ltb-ge, leb→le, le→leb, Bool-cases, Bytes, length, take,
  drop, All, length-take, length-drop, take-append-drop, drop-add, ℕ, zero, suc, ◌+◌, ◌-◌, ◌%◌, ◌^◌,
  ◌≤◌, ◌<◌, min, max, ◌≡◌, refl, sym, ◌∙◌, inl, inr, Bool, true, false, some, List, [], ◌∷◌, ◌++◌,
  arith,
}
use libspaznet.Wire.Slices.{drop_all}
use libspaznet.Http2.Frame.{end_stream, Frame}
use libspaznet.Http2.Message.{
  Response, sanitize_http2_headers, headers_flags, with_status, build_response_headers,
  build_data_frame, chunks, to_frames,
}
use libspaznet.Http2.Hpack.Encode.{encode_headers}

abbrev pub payloads : List Frame → Bytes
payloads [] = []
payloads (f ∷ fs) = f.payload ++ payloads fs

-- Only the last frame has END_STREAM, 0x1.
abbrev pub EndsOnce : List Frame → Type 0
EndsOnce [] = Unit
EndsOnce (f ∷ []) = f.flags ≡ 0x1
EndsOnce (f ∷ g ∷ fs) = (f.flags ≡ 0) × EndsOnce (g ∷ fs)

-- A DATA frame, of type 0x0, of the stream, not empty and not too long.
abbrev pub IsChunk : ℕ → ℕ → Frame → Type 0
IsChunk max stream_id f =
    (f.frame_type ≡ 0x0)
    × (0 < length f.payload)
    × (length f.payload ≤ max)
    × (f.size ≡ length f.payload)
    × (f.stream_id ≡ stream_id)

-- The frame of the headers: HEADERS, of type 0x1, with END_HEADERS, 0x4, and with END_STREAM where the
-- body is empty; its payload is the encoded headers that may be sent, `:status` with them.
pub record IsHead (r : Response) (f : Frame) : Type 0 where
  pub kind : f.frame_type ≡ 0x1
  pub flags : f.flags ≡ (if length r.body == 0 then 0x5 else 0x4)
  pub stream : f.stream_id ≡ r.stream_id
  pub counted : f.size ≡ length f.payload % 2 ^ 32
  pub block : f.payload ≡ encode_headers (with_status r (sanitize_http2_headers r.headers))

build_response_headers-IsHead :
    (r : Response) → IsHead r (build_response_headers r r.stream_id true (length r.body == 0))
unfolding build_response_headers
build_response_headers-IsHead r = record {
  kind = refl;
  flags = pick (length r.body == 0);
  stream = refl;
  counted = refl;
  block = refl;
}
  where
    pick : (b : Bool) → headers_flags true b ≡ (if b then 0x5 else 0x4)
    pick true = refl
    pick false = refl

-- The frames from an offset on carry what is left.
record Splits (max stream_id : ℕ) (left : Bytes) (fs : List Frame) : Type 0 where
  carried : payloads fs ≡ left
  each : All (IsChunk max stream_id) fs
  ends : EndsOnce fs
  some_left : length left ≡ 0 → fs ≡ []
  none_left : fs ≡ [] → length left ≡ 0

-- A frame in front of them.
ends_cons :
    (last : Bool) (f : Frame) (fs : List Frame)
    → f.flags ≡ (if last then end_stream else 0)
    → (fs ≡ [] → last ≡ true)
    → (last ≡ true → fs ≡ [])
    → EndsOnce fs
    → EndsOnce (f ∷ fs)
ends_cons last f [] flags h k ends = flags ∙ rw (h refl) refl
ends_cons true f (g ∷ fs) flags h k ends = absurd (cc (k refl))
ends_cons false f (g ∷ fs) flags h k ends = (flags, ends)

module _ (max stream_id : ℕ) (body : Bytes) (some_bytes : 0 < max)
    (small : length body < 2 ^ 32) where
  done-Splits : (offset : ℕ) → length body ≤ offset → Splits max stream_id (drop offset body) []
  done-Splits offset h = record {
    carried = sym (drop_all offset body h);
    each = tt;
    ends = tt;
    some_left = λ e. refl;
    none_left = λ e. omega (arith, length-drop offset body);
  }

  cons-Splits :
      (offset n : ℕ) (fs : List Frame)
      → offset < length body
      → n ≡ min max (length body - offset)
      → Splits max stream_id (drop (offset + n) body) fs
      → Splits max stream_id (drop offset body) (
          build_data_frame stream_id (take n (drop offset body)) (leb (length body) (offset + n))
          ∷ fs)
  unfolding build_data_frame
  cons-Splits offset n fs before size h =
      let left = drop offset body in
      let taken : length (take n left) ≡ n =
        omega (arith, length-take n left, length-drop offset body) in
      let after = length-drop (offset + n) body in
      record {
        carried = rw (h.carried, drop-add offset n body) (take-append-drop n left);
        each = ((refl, omega arith, omega arith, omega arith, refl), h.each);
        ends =
            ends_cons (leb (length body) (offset + n))
              (build_data_frame stream_id (take n left) (leb (length body) (offset + n))) fs refl
              (λ e. le→leb (length body) (offset + n) (omega (arith, h.none_left e, after)))
              (λ e. h.some_left (omega (arith, leb→le (length body) (offset + n) e, after))) h.ends;
        some_left = λ e. absurd (omega (arith, length-drop offset body));
        none_left = λ e. absurd (cc e);
      }

  chunks-Splits :
      (fuel offset : ℕ)
      → offset ≤ length body
      → length body ≤ offset + fuel
      → (fs : List Frame) × (chunks fuel stream_id body max offset ≡ some fs)
        × Splits max stream_id (drop offset body) fs
  unfolding chunks
  chunks-Splits zero offset inside enough =
      ([], rw (ltb-ge offset (length body) (omega arith)) refl, done-Splits offset (omega arith))
  chunks-Splits (suc fuel) offset inside enough = elim (Bool-cases (ltb offset (length body))) [
    | inr past ↦ ([], rw past refl, done-Splits offset (ground (arith, past)))
    | inl before ↦
        let n = min max (length body - offset) in
        let inside' = ltb→lt offset (length body) before in
        let (fs, found, h) = chunks-Splits fuel (offset + n) (omega arith) (omega arith) in
        (
          build_data_frame stream_id (take n (drop offset body)) (leb (length body) (offset + n))
              ∷ fs,
          rw (before, found, chunks) refl,
          cons-Splits offset n fs inside' refl h,
        )
  ]

-- `Response::to_frames`, with a frame size that is not 0: the loop ends, a HEADERS frame of the stream
-- comes first, which has the encoded headers, END_HEADERS, and END_STREAM exactly for an empty body,
-- and the frames behind it carry the body in order, each a DATA frame of the stream, not empty, at most
-- as long as the frame size and of the length its header says, with END_STREAM on the last and on no
-- other. The body is shorter than 2 ^ 32.
pub to_frames-Splits :
    (max : ℕ) (r : Response)
    → 0 < max
    → length r.body < 2 ^ 32
    → (head : Frame) × (fs : List Frame) × (to_frames max r ≡ some (head ∷ fs))
      × IsHead r head
      × (payloads fs ≡ r.body)
      × All (IsChunk max r.stream_id) fs
      × EndsOnce fs
unfolding to_frames
to_frames-Splits max r some_bytes small =
    let (fs, found, h) =
      chunks-Splits max r.stream_id r.body some_bytes small (length r.body) 0 (omega arith)
        (omega arith) in
    (
      build_response_headers r r.stream_id true (length r.body == 0),
      fs,
      rw (found, to_frames) refl,
      build_response_headers-IsHead r,
      h.carried,
      h.each,
      h.ends,
    )
