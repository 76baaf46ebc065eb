-- ===== src/Http3/H3Frame/RoundTrip.antt =====
-- `parse_h3_frame` takes what `encode_h3_frame` writes.
use libspaznet.Base.{
  ==_self, Bytes, length, All, length-append, ℕ, ◌*◌, ◌^◌, ◌≤◌, ◌<◌, ◌≡◌, refl, sym, ap, ◌∙◌, ◌≢◌,
  some, List, [], ◌∷◌, ◌++◌, append-nil, arith,
}
use libspaznet.Wire.Writer.{Writer, for_each}
use libspaznet.Wire.RoundTrip.{
  At, At-whole, At-behind, Emits, Parses, Emits-seq, all_bytes, Emits-for_each, Parses-bind,
  Parses-map,
}
use libspaznet.Wire.Codec.{Codec, Codec-bind, Codec-end, Codec-insert}
use libspaznet.Wire.Loop.{read_all-Parses}
use libspaznet.Quic.VarInt.{append, decode as read_varint}
use libspaznet.Quic.VarInt.RoundTrip.{
  varint, Emits-append, Parses-decode, length-varint, length-varint_size,
}
use libspaznet.Quic.Frame.Encodable.{IsVarint}
use libspaznet.Quic.Frame.Codecs.{Codec-varint}
use libspaznet.Http3.H3Frame.{
  H3FrameType, code_of, H3Frame, read_setting, settings_of, parse_settings, parse_number,
  parse_numbered, parse_body, finish, parse_h3_frame, write_h3, write_boxed, write_setting,
  encode_h3_frame,
}

-- The bytes of a setting.
abbrev setting_bytes : ℕ × ℕ → Bytes
setting_bytes (id, value) = varint id ++ varint value

abbrev pub IsSetting : ℕ × ℕ → Type 0
IsSetting (id, value) = IsVarint id × IsVarint value

-- A type that the `switch` names is read as that type.
abbrev pub IsReserved : ℕ → Type 0
IsReserved t = (t ≢ 0x00) × (t ≢ 0x01) × (t ≢ 0x03) × (t ≢ 0x04) × (t ≢ 0x07) × (t ≢ 0x0d)

-- Numbers below 2 ^ 62, and a content of such a length; at most 2 ^ 57 settings, of at most 16 bytes.
abbrev pub IsEncodable : H3Frame → Type 0
IsEncodable (H3Frame.settings entries) = All IsSetting entries × (length entries ≤ 2 ^ 57)
IsEncodable (H3Frame.body bytes) = IsVarint (length bytes)
IsEncodable (H3Frame.headers bytes) = IsVarint (length bytes)
IsEncodable (H3Frame.go_away id) = IsVarint id
IsEncodable (H3Frame.max_push_id value) = IsVarint value
IsEncodable (H3Frame.cancel_push id) = IsVarint id
IsEncodable (H3Frame.reserved x) =
    IsReserved x.type_code × IsVarint x.type_code × IsVarint (length x.bytes)

Codec-h3 :
    (type_code : ℕ) (bytes : Bytes) (f : H3Frame)
    → IsVarint type_code
    → IsVarint (length bytes)
    → parse_body type_code bytes ≡ some f
    → Codec (write_h3 type_code bytes) parse_h3_frame f
unfolding parse_h3_frame finish
Codec-h3 type_code bytes f small sized e = Codec-bind _ (Codec-varint type_code small) (
    Codec-bind _ (Codec-varint (length bytes) sized)
      (Codec-end (finish type_code) (Codec-insert bytes) (λ buf off. rw (e, finish) refl)))

Codec-boxed :
    (type_code : ℕ) (w : Writer) (bytes : Bytes) (f : H3Frame)
    → IsVarint type_code
    → IsVarint (length bytes)
    → Emits w bytes
    → parse_body type_code bytes ≡ some f
    → Codec (write_boxed type_code w) parse_h3_frame f
unfolding write_boxed
Codec-boxed type_code w bytes f small sized emits e =
    let (bs, hw, hp) = Codec-h3 type_code bytes f small sized e in
    (bs, λ out. rw (emits [], write_boxed) (hw out), hp)

whole_At : (bs : Bytes) → length bs < 2 ^ 63 → At bs 0 (bs ++ [])
whole_At bs h = rw append-nil (At-whole bs h)

parse_number-varint : (v : ℕ) → IsVarint v → parse_number (varint v) ≡ some v
unfolding parse_number
parse_number-varint v h =
    let read : read_varint (varint v) 0 ≡ some (v, length (varint v)) =
      Parses-decode v h (varint v) 0 [] (whole_At (varint v) (omega (arith, length-varint v)))
      ∙ ap (λ n. some (v, n)) (omega arith) in
    rw (read, parse_number) (rw (==_self (length (varint v))) refl)

Emits-setting : (s : ℕ × ℕ) → IsSetting s → Emits (write_setting s) (setting_bytes s)
Emits-setting (id, value) (h₁, h₂) =
    Emits-seq (append id) (append value) (Emits-append id h₁) (Emits-append value h₂)

Parses-setting : (s : ℕ × ℕ) → IsSetting s → Parses read_setting (setting_bytes s) s
unfolding read_setting
Parses-setting (id, value) (h₁, h₂) =
    Parses-bind _ _ (varint id) (varint value) (Parses-decode id h₁)
      (Parses-map _ (λ v. (id, v)) (varint value) (Parses-decode value h₂))

length-setting : (s : ℕ × ℕ) → (0 < length (setting_bytes s)) × (length (setting_bytes s) ≤ 16)
length-setting (id, value) = (
  ground (
    arith,
    length-append (varint id) (varint value),
    length-varint_size id,
    length-varint_size value,
  ),
  omega (arith, length-append (varint id) (varint value), length-varint id, length-varint value),
)

All-Emits :
    (es : List (ℕ × ℕ)) → All IsSetting es → All (λ s. Emits (write_setting s) (setting_bytes s)) es
All-Emits [] h = tt
All-Emits (s ∷ es) (h, hs) = (Emits-setting s h, All-Emits es hs)

All-Parses :
    (es : List (ℕ × ℕ))
    → All IsSetting es
    → All (λ s. Parses read_setting (setting_bytes s) s × (0 < length (setting_bytes s))) es
All-Parses [] h = tt
All-Parses (s ∷ es) (h, hs) = ((Parses-setting s h, (length-setting s).0), All-Parses es hs)

length-settings : (es : List (ℕ × ℕ)) → length (all_bytes setting_bytes es) ≤ 16 * length es
length-settings [] = omega arith
length-settings (s ∷ es) = omega (
  arith,
  length-append (setting_bytes s) (all_bytes setting_bytes es),
  (length-setting s).1,
  length-settings es,
)

parse_settings-entries :
    (es : List (ℕ × ℕ))
    → All IsSetting es
    → length es ≤ 2 ^ 57
    → parse_settings (all_bytes setting_bytes es) ≡ some (H3Frame.settings es)
unfolding parse_settings settings_of
parse_settings-entries es h few =
    let bytes : Bytes = all_bytes setting_bytes es in
    ap settings_of (
      read_all-Parses read_setting setting_bytes es (length bytes) bytes 0 [] (All-Parses es h)
        (At-whole bytes (omega (arith, length-settings es))) (omega arith))

code_of-IsVarint : (t : H3FrameType) → IsVarint (code_of t)
code_of-IsVarint H3FrameType.body = omega arith
code_of-IsVarint H3FrameType.headers = omega arith
code_of-IsVarint H3FrameType.cancel_push = omega arith
code_of-IsVarint H3FrameType.settings = omega arith
code_of-IsVarint H3FrameType.push_promise = omega arith
code_of-IsVarint H3FrameType.go_away = omega arith
code_of-IsVarint H3FrameType.max_push_id = omega arith

Codec-numbered :
    (t : H3FrameType) (frame : ℕ → H3Frame) (v : ℕ)
    → IsVarint v
    → ((bytes : Bytes) → parse_body (code_of t) bytes ≡ parse_numbered frame bytes)
    → Codec (write_boxed (code_of t) (append v)) parse_h3_frame (frame v)
unfolding parse_numbered
Codec-numbered t frame v h e =
    Codec-boxed (code_of t) (append v) (varint v) (frame v) (code_of-IsVarint t)
      (omega (arith, length-varint v)) (Emits-append v h)
      (e (varint v) ∙ rw (parse_number-varint v h, parse_numbered) refl)

Codec-frame : (f : H3Frame) → IsEncodable f → Codec (encode_h3_frame f) parse_h3_frame f
unfolding encode_h3_frame parse_body
Codec-frame (H3Frame.settings es) (h, few) =
    Codec-boxed 4 (for_each write_setting es) (all_bytes setting_bytes es) (H3Frame.settings es)
      (omega arith) (omega (arith, length-settings es))
      (Emits-for_each write_setting setting_bytes es (All-Emits es h))
      (parse_settings-entries es h few)
Codec-frame (H3Frame.body bytes) h = Codec-h3 0 bytes (H3Frame.body bytes) (omega arith) h refl
Codec-frame (H3Frame.headers bytes) h =
    Codec-h3 1 bytes (H3Frame.headers bytes) (omega arith) h refl
Codec-frame (H3Frame.go_away id) h =
    Codec-numbered H3FrameType.go_away H3Frame.go_away id h (λ bytes. refl)
Codec-frame (H3Frame.max_push_id value) h =
    Codec-numbered H3FrameType.max_push_id H3Frame.max_push_id value h (λ bytes. refl)
Codec-frame (H3Frame.cancel_push id) h =
    Codec-numbered H3FrameType.cancel_push H3Frame.cancel_push id h (λ bytes. refl)
Codec-frame (H3Frame.reserved x) (other, h₁, h₂) =
    Codec-h3 x.type_code x.bytes (H3Frame.reserved x) h₁ h₂ (ground (arith, other))

-- `encode_h3_frame` appends to the output, and `parse_h3_frame`, started where the output ended,
-- answers the frame and stops at its end. It holds for every encodable frame, with any bytes
-- before it and behind it, fewer than 2 ^ 63 in all.
pub parse_h3_frame-encode_h3_frame :
    (f : H3Frame) (out rest : Bytes) {out' : Bytes}
    → IsEncodable f
    → encode_h3_frame f out ≡ some out'
    → length (out' ++ rest) < 2 ^ 63
    → parse_h3_frame (out' ++ rest) (length out) ≡ some (f, length out')
parse_h3_frame-encode_h3_frame f out rest {out'} h e room =
    let (bs, hw, hp) = Codec-frame f h in
    let whole : out ++ bs ≡ out' = cc (hw out) in
    rw (← whole) (
      hp _ (length out) rest (
        At-behind out bs rest (
          omega (
            arith,
            ap (λ (xs : Bytes). length (xs ++ rest)) whole,
            length-append (out ++ bs) rest,
            length-append out bs,
          )))
      ∙ ap (λ n. some (f, n)) (sym (length-append out bs)))
