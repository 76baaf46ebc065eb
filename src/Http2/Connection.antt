-- ===== src/Http2/Connection.antt =====
-- `Connection` of example/http2/src/codec.cpp: the streams that frames open and close.
pub mod States
use libspaznet.Base.{
  ◌==◌, if◌then◌else◌, ℕ, bit_and, ◌≡◌, refl, Bool, true, false, not, ◌&&◌, Option, none, some,
  List, [], ◌∷◌, arith,
}
use libspaznet.Http2.Frame.{Frame, ParseResult, success, error, type_headers, end_stream}
use libspaznet.Http2.Settings.{Settings}

pub data StreamState : Type 0 where
  idle reserved_local reserved_remote opened half_closed_local half_closed_remote closed :
      StreamState

-- `streams_` is a map; the constructor starts with none. `next_stream_id_` and
-- `client_preface_received_` are never read.
pub record Connection : Type 0 where
  pub settings : Settings
  pub streams : List (ℕ × StreamState)

unfoldable pub lookup : ℕ → List (ℕ × StreamState) → Option StreamState
lookup id [] = none
lookup id ((k, s) ∷ rest) = let later = lookup id rest in if k == id then some s else later

-- `streams_[id] = s`
unfoldable pub insert : ℕ → StreamState → List (ℕ × StreamState) → List (ℕ × StreamState)
insert id s [] = (id, s) ∷ []
insert id s ((k, t) ∷ rest) =
    let later = insert id s rest in if k == id then (id, s) ∷ rest else (k, t) ∷ later

unfoldable pub get_stream_state : ℕ → Connection → StreamState
get_stream_state id c = elim (lookup id c.streams) [ none ↦ idle | some s ↦ s ]

abbrev pub is_valid_stream : ℕ → Bool
is_valid_stream id = not (id == 0)

unfoldable pub initialize_stream : ℕ → Connection → Connection
initialize_stream id c = record c { streams = insert id opened c.streams }

unfoldable pub close_stream : ℕ → Connection → Connection
close_stream id c = record c { streams = insert id closed c.streams }

unfoldable pub update_settings : Settings → Connection → Connection
update_settings settings c = record c { settings = settings }

abbrev pub is_idle : StreamState → Bool
is_idle StreamState.idle = true
is_idle _ = false

-- The `switch` on the type, then the flag.
unfoldable pub after_type : Frame → Connection → Connection
after_type frame c =
    if frame.frame_type == type_headers
    then (if is_idle (get_stream_state frame.stream_id c)
        then initialize_stream frame.stream_id c
        else c)
    else c

unfoldable pub after_flags : Frame → Connection → Connection
after_flags frame c =
    if bit_and frame.flags end_stream == 0 then c else close_stream frame.stream_id c

unfoldable pub process_frame : Frame → Connection → ParseResult × Connection
process_frame frame c =
    if not (frame.stream_id == 0) && not (is_valid_stream frame.stream_id)
    then (error, c)
    else if frame.stream_id == 0
    then (success, c)
    else (success, after_flags frame (after_type frame c))

-- Frames, one after the other.
unfoldable pub run : List Frame → Connection → Connection
run [] c = c
run (frame ∷ rest) c = run rest (process_frame frame c).1

pub lookup-insert :
    (id j : ℕ) (s : StreamState) (m : List (ℕ × StreamState))
    → lookup j (insert id s m) ≡ (if id == j then some s else lookup j m)
unfolding lookup insert
lookup-insert id j s [] = refl
lookup-insert id j s ((k, t) ∷ rest) = ground (arith, lookup-insert id j s rest)
