-- ===== src/Http2/Settings/RoundTrip.antt =====
-- What `parse_into` makes of the bytes of `serialize`, and of any others.
use libspaznet.Base.{
  ◌==◌, if◌then◌else◌, Bytes, All, ℕ, ◌/◌, ◌%◌, ◌^◌, ◌<◌, ◌≡◌, refl, ap, ◌∙◌, Bool, true, false,
  not, List, [], ◌∷◌, ◌++◌, arith,
}
use libspaznet.Utils.Binary.{or16, or32}
use libspaznet.Http2.Settings.{
  Settings, parameter, serialize, is_frame_size, set_parameter, id_of, value_of, parse_into,
}

-- The fields are `uint32_t`.
pub record IsSettings (s : Settings) : Type 0 where
  pub table : s.header_table_size < 2 ^ 32
  pub streams : s.max_concurrent_streams < 2 ^ 32
  pub window : s.initial_window_size < 2 ^ 32
  pub frame : s.max_frame_size < 2 ^ 32
  pub list : s.max_header_list_size < 2 ^ 32

id_of-small : (id : ℕ) → id < 256 → id_of 0 id ≡ id
id_of-small id h = or16 0 id h ∙ omega arith

value_of-bytes :
    (v : ℕ)
    → v < 2 ^ 32
    → value_of (v / 2 ^ 24 % 256) (v / 2 ^ 16 % 256) (v / 2 ^ 8 % 256) (v % 256) ≡ v
value_of-bytes v h =
    or32 (v / 2 ^ 24 % 256) (v / 2 ^ 16 % 256) (v / 2 ^ 8 % 256) (v % 256) (omega arith)
      (omega arith) (omega arith)
    ∙ omega arith

-- One parameter in front.
parse_into-parameter :
    (id value : ℕ) (rest : Bytes) (s : Settings)
    → id < 256
    → value < 2 ^ 32
    → parse_into (parameter id value ++ rest) s ≡ parse_into rest (set_parameter id value s)
unfolding parse_into
parse_into-parameter id value rest s hi hv = rw (id_of-small id hi, value_of-bytes value hv) refl

-- Several of them, and their effect one after the other.
abbrev write_all : List (ℕ × ℕ) → Bytes
write_all [] = []
write_all ((id, value) ∷ ps) = parameter id value ++ write_all ps

abbrev set_all : List (ℕ × ℕ) → Settings → Settings
set_all [] s = s
set_all ((id, value) ∷ ps) s = set_all ps (set_parameter id value s)

abbrev IsParameter : ℕ × ℕ → Type 0
IsParameter (id, value) = (id < 256) × (value < 2 ^ 32)

parse_into-parameters :
    (ps : List (ℕ × ℕ)) (s : Settings)
    → All IsParameter ps
    → parse_into (write_all ps) s ≡ set_all ps s
unfolding parse_into
parse_into-parameters [] s h = refl
parse_into-parameters ((id, value) ∷ ps) s ((hi, hv), hs) =
    parse_into-parameter id value (write_all ps) s hi hv
    ∙ parse_into-parameters ps (set_parameter id value s) hs

abbrev parameters : Settings → List (ℕ × ℕ)
parameters s =
    (1, s.header_table_size)
    ∷ (2, if s.enable_push then 1 else 0)
    ∷ (3, s.max_concurrent_streams)
    ∷ (4, s.initial_window_size)
    ∷ (5, s.max_frame_size)
    ∷ (6, s.max_header_list_size)
    ∷ []

push_flag : (b : Bool) → not ((if b then 1 else 0) == 0) ≡ b
push_flag true = refl
push_flag false = refl

push-small : (b : Bool) → (if b then 1 else 0) < 2 ^ 32
push-small true = omega arith
push-small false = omega arith

-- Reading what `serialize` wrote replaces every setting by the one that was written, whatever stood
-- there, but for the maximal frame size, which is kept where the written one is below 16384 or
-- above 16777215. The written fields have 32 bits.
pub parse_into-serialize :
    (s t : Settings)
    → IsSettings s
    → parse_into (serialize s) t ≡ record s {
      max_frame_size =
          if is_frame_size s.max_frame_size then s.max_frame_size else t.max_frame_size;
    }
unfolding serialize parse_into set_parameter
parse_into-serialize s t h =
    let all : parse_into (serialize s) t ≡ set_all (parameters s) t =
      parse_into-parameters (parameters s) t (
        (omega arith, h.table),
        (
          (omega arith, push-small s.enable_push),
          (
            (omega arith, h.streams),
            ((omega arith, h.window), ((omega arith, h.frame), ((omega arith, h.list), tt))),
          ),
        ),
      ) in
    all
    ∙ ap
        (λ (b : Bool). record s {
          enable_push = b;
          max_frame_size =
              if is_frame_size s.max_frame_size then s.max_frame_size else t.max_frame_size;
        })
        (push_flag s.enable_push)

set-frame_size :
    (id value : ℕ) (s : Settings)
    → is_frame_size s.max_frame_size ≡ true
    → is_frame_size (set_parameter id value s).max_frame_size ≡ true
unfolding set_parameter
set-frame_size id value s h = ground arith

-- Whatever a SETTINGS payload says, the maximal frame size stays in the range of RFC 9113, if it was
-- in it before.
pub parse_into-frame_size :
    (payload : Bytes) (s : Settings)
    → is_frame_size s.max_frame_size ≡ true
    → is_frame_size (parse_into payload s).max_frame_size ≡ true
unfolding parse_into
parse_into-frame_size (a ∷ b ∷ c ∷ d ∷ e ∷ f ∷ rest) s h =
    parse_into-frame_size rest (set_parameter (id_of a b) (value_of c d e f) s)
      (set-frame_size (id_of a b) (value_of c d e f) s h)
parse_into-frame_size (a ∷ b ∷ c ∷ d ∷ e ∷ []) s h = h
parse_into-frame_size (a ∷ b ∷ c ∷ d ∷ []) s h = h
parse_into-frame_size (a ∷ b ∷ c ∷ []) s h = h
parse_into-frame_size (a ∷ b ∷ []) s h = h
parse_into-frame_size (a ∷ []) s h = h
parse_into-frame_size [] s h = h
