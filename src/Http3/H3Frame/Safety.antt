-- ===== src/Http3/H3Frame/Safety.antt =====
-- What `parse_h3_frame` does on any bytes.
use libspaznet.Base.{Bytes, length, ℕ, ◌+◌, ◌^◌, ◌≤◌, ◌<◌, ◌≡◌, ◌≢◌, some, [], arith}
use libspaznet.Wire.Reader.{Reader, ◌>>=◌, return, read_bytes}
use libspaznet.Wire.Safe.{IsBuffer, bind-eq-some, Safe-read_bytes}
use libspaznet.Wire.Loop.{read_all, read_all-ne-stuck, stuck}
use libspaznet.Quic.VarInt.{decode as read_varint}
use libspaznet.Quic.VarInt.Bounds.{decode_bounds}
use libspaznet.Http3.H3Frame.{read_setting, parse_h3_frame, finish, H3Frame, read_bytes}

-- A number takes a byte at least.
varint_moves :
    (buf : Bytes) (off v off' : ℕ)
    → IsBuffer buf
    → read_varint buf off ≡ some (v, off')
    → (off < off') × (off' ≤ length buf) × (v < 2 ^ 62)
varint_moves buf off v off' hb e =
    let (small, moved, near, inside) = decode_bounds buf off v off' hb e in
    (ground arith, inside, omega arith)

setting_moves :
    (buf : Bytes) (off off' : ℕ) (s : ℕ × ℕ)
    → IsBuffer buf
    → read_setting buf off ≡ some (s, off')
    → off < off'
unfolding read_setting
setting_moves buf off off' s hb e =
    let (id, mid, e₁, e₂) =
      bind-eq-some read_varint (λ id. (read_varint >>= value_of id)) buf off e in
    let (value, mid', e₃, e₄) = bind-eq-some read_varint (value_of id) buf mid e₂ in
    let (up, _, _) = varint_moves buf off id mid hb e₁ in
    let (up', _, _) = varint_moves buf mid value mid' hb e₃ in ground arith
  where
    value_of : ℕ → ℕ → Reader (ℕ × ℕ)
    value_of id value = return (id, value)

-- The loop over SETTINGS entries ends on every content of bytes, shorter than 2 ^ 63, within as
-- many rounds as it has bytes.
pub settings-ne-stuck :
    (bytes : Bytes) → IsBuffer bytes → read_all read_setting (length bytes) bytes 0 [] ≢ stuck
settings-ne-stuck bytes hb =
    read_all-ne-stuck read_setting (length bytes) bytes 0 []
      (λ o o' s before e. setting_moves bytes o o' s hb e) (omega arith)

finish-moves :
    (type_code : ℕ) (content buf : Bytes) (off off' : ℕ) (f : H3Frame)
    → finish type_code content buf off ≡ some (f, off')
    → off' ≡ off
unfolding finish
finish-moves type_code content buf off off' f e = ground arith

-- Whatever the bytes, fewer than 2 ^ 63, a frame that `parse_h3_frame` accepts takes at least two
-- of them, and its end is inside the buffer.
pub parse_h3_frame_bounds :
    (buf : Bytes) (off off' : ℕ) (f : H3Frame)
    → IsBuffer buf
    → parse_h3_frame buf off ≡ some (f, off')
    → (off + 2 ≤ off') × (off' ≤ length buf)
unfolding parse_h3_frame
parse_h3_frame_bounds buf off off' f hb e =
    let (t, m₁, e₁, r₁) =
      bind-eq-some read_varint (λ t. (read_varint >>= λ n. (read_bytes n >>= finish t))) buf off
        e in
    let (n, m₂, e₂, r₂) = bind-eq-some read_varint (λ n. (read_bytes n >>= finish t)) buf m₁ r₁ in
    let (content, m₃, e₃, r₃) = bind-eq-some (read_bytes n) (finish t) buf m₂ r₂ in
    let (up₁, _, _) = varint_moves buf off t m₁ hb e₁ in
    let (up₂, inside, small) = varint_moves buf m₁ n m₂ hb e₂ in
    let (_, up₃, end) = Safe-read_bytes n (omega arith) buf m₂ content m₃ hb inside e₃ in
    let same = finish-moves t content buf m₃ off' f r₃ in (omega arith, omega arith)
