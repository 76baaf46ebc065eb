-- ===== src/Http2/Settings.antt =====
-- `Settings` of example/http2/src/codec.cpp: what a SETTINGS frame carries.
pub mod RoundTrip
use libspaznet.Base.{
  leb, ◌==◌, if◌then◌else◌, Bytes, ℕ, ◌*◌, ◌/◌, ◌%◌, ◌^◌, bit_or, Bool, true, not, ◌&&◌, [], ◌∷◌,
  ◌++◌,
}

pub record Settings : Type 0 where
  pub header_table_size : ℕ
  pub enable_push : Bool
  pub max_concurrent_streams : ℕ
  pub initial_window_size : ℕ
  pub max_frame_size : ℕ
  pub max_header_list_size : ℕ

-- The initializers of the struct.
abbrev pub initial : Settings
initial = record {
  header_table_size = 4096;
  enable_push = true;
  max_concurrent_streams = 0;
  initial_window_size = 65535;
  max_frame_size = 16384;
  max_header_list_size = 0;
}

-- Six bytes: the identifier, and the value in network byte order.
abbrev pub parameter : ℕ → ℕ → Bytes
parameter id value =
    0 ∷ id ∷ value / 2 ^ 24 % 256 ∷ value / 2 ^ 16 % 256 ∷ value / 2 ^ 8 % 256 ∷ value % 256 ∷ []

unfoldable pub serialize : Settings → Bytes
serialize s =
    parameter 0x1 s.header_table_size
    ++ (parameter 0x2 (if s.enable_push then 1 else 0)
        ++ (parameter 0x3 s.max_concurrent_streams
            ++ (parameter 0x4 s.initial_window_size
                ++ (parameter 0x5 s.max_frame_size ++ parameter 0x6 s.max_header_list_size))))

abbrev pub is_frame_size : ℕ → Bool
is_frame_size value = leb 16384 value && leb value 16777215

-- The `switch` on the identifier.
unfoldable pub set_parameter : ℕ → ℕ → Settings → Settings
set_parameter id value s =
    if id == 0x1
    then record s { header_table_size = value }
    else if id == 0x2
    then record s { enable_push = not (value == 0) }
    else if id == 0x3
    then record s { max_concurrent_streams = value }
    else if id == 0x4
    then record s { initial_window_size = value }
    else if id == 0x5
    then record s { max_frame_size = if is_frame_size value then value else s.max_frame_size }
    else if id == 0x6
    then record s { max_header_list_size = value }
    else s

abbrev pub id_of : ℕ → ℕ → ℕ
id_of a b = bit_or (a * 2 ^ 8 % 2 ^ 16) b

abbrev pub value_of : ℕ → ℕ → ℕ → ℕ → ℕ
value_of c d e f = bit_or (bit_or (bit_or (c * 2 ^ 24) (d * 2 ^ 16)) (e * 2 ^ 8)) f

-- Fewer than six bytes at the end are left alone.
unfoldable pub parse_into : Bytes → Settings → Settings
parse_into (a ∷ b ∷ c ∷ d ∷ e ∷ f ∷ rest) s =
    parse_into rest (set_parameter (id_of a b) (value_of c d e f) s)
parse_into _ s = s

unfoldable pub parse : Bytes → Settings
parse payload = parse_into payload initial
