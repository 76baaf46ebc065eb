-- ===== src/Tests/Messages.antt =====
-- HTTP/2 at concrete inputs.
use libspaznet.Base.{
  Bytes, length, All, ◌+◌, ◌≤◌, ◌≡◌, refl, ◌≢◌, false, none, some, List, [], ◌∷◌, ◌++◌, arith,
}
use libspaznet.Base.Text.{text}
use libspaznet.Base.Ints.{pos}
use libspaznet.Http2.Frame.{Frame, serialize, parse}
use libspaznet.Http2.Frame.RoundTrip.{parse-serialize}
use libspaznet.Http2.Settings.{Settings, initial, serialize as serialize_settings, parse_into}
use libspaznet.Http2.Settings.RoundTrip.{parse_into-serialize}
use libspaznet.Http2.Hpack.{encode_prefix_int, encode_string}
use libspaznet.Http2.Hpack.StaticTable.{static_table}
use libspaznet.Utils.Header.{same_text}
use libspaznet.Http2.Hpack.Encode.{
  sort, keep, place, before_entry, before_text, emit_all, emit, find_index, encode_headers, ordered,
}
use libspaznet.Http2.Hpack.Decode.{decode_headers}
use libspaznet.Http2.Hpack.Decode.Ends.{decode_headers-ne-none}
use libspaznet.Http2.Hpack.RoundTrip.{decode_headers-encode_headers}
use libspaznet.Http2.Message.{Response, to_frames}
use libspaznet.Http2.Message.Chunks.{payloads, EndsOnce, IsChunk, IsHead, to_frames-Splits}
use libspaznet.Http2.Connection.{Connection, get_stream_state, run}
use libspaznet.Http2.Connection.States.{stage, run-stage}
use mathlib.Core.List.{Perm}

abbrev ping : Frame
ping = record { size = 2; frame_type = 6; flags = 1; stream_id = 5; payload = 7 ∷ 8 ∷ [] }

parse-serialize_example :
    parse ((1 ∷ []) ++ (serialize ping ++ (9 ∷ []))) 1 ≡ (some ping, 1 + length (serialize ping))
parse-serialize_example =
    parse-serialize ping (1 ∷ []) (9 ∷ [])
      (record { counted = refl; sized = omega arith; stream = omega arith })

abbrev small_windows : Settings
small_windows = record initial {
  initial_window_size = 100;
  enable_push = false;
  max_frame_size = 5;
}

-- A frame size of 5 is not taken over.
parse_into-serialize_example :
    parse_into (serialize_settings small_windows) initial
    ≡ record small_windows { max_frame_size = 16384 }
parse_into-serialize_example = parse_into-serialize small_windows initial (record {
  table = omega arith;
  streams = omega arith;
  window = omega arith;
  frame = omega arith;
  list = omega arith;
})

abbrev two_entries : List (Bytes × Bytes)
two_entries = (text "x-a", text "b") ∷ (text ":status", text "200") ∷ []

-- The status is in the static table, and comes first.
entries_bytes :
    encode_headers two_entries ≡ 0x88 ∷ 0x00 ∷ 0x03 ∷ 0x78 ∷ 0x2d ∷ 0x61 ∷ 0x01 ∷ 0x62 ∷ []
unfolding encode_headers ordered sort keep place before_entry emit_all emit find_index
    encode_prefix_int encode_string static_table same_text before_text
entries_bytes = refl

decode_headers-encode_headers_example :
    (decode_headers (encode_headers two_entries) ≡ some (ordered two_entries))
    × Perm (ordered two_entries) two_entries
decode_headers-encode_headers_example =
    decode_headers-encode_headers two_entries (((λ e. cc e), tt), (tt, tt))
      (
        record { named = omega arith; name_sized = omega arith; value_sized = omega arith },
        (record { named = omega arith; name_sized = omega arith; value_sized = omega arith }, tt),
      )
      (rw entries_bytes (omega arith))

-- A name that is cut off.
decode_headers-ne-none_example : decode_headers (0x00 ∷ 0x7f ∷ []) ≢ none
decode_headers-ne-none_example = decode_headers-ne-none (0x00 ∷ 0x7f ∷ [])

abbrev hello : Response
hello = record { stream_id = 3; status_code = pos 200; headers = []; body = text "hello" }

to_frames-Splits_example :
    (head : Frame) × (fs : List Frame) × (to_frames 2 hello ≡ some (head ∷ fs))
    × IsHead hello head
    × (payloads fs ≡ text "hello")
    × All (IsChunk 2 3) fs
    × EndsOnce fs
to_frames-Splits_example = to_frames-Splits 2 hello (omega arith) (omega arith)

abbrev fresh : Connection
fresh = record { settings = initial; streams = [] }

abbrev request_frame : Frame
request_frame = record { size = 0; frame_type = 1; flags = 5; stream_id = 5; payload = [] }

run-stage_example :
    stage (get_stream_state 5 fresh)
    ≤ stage (get_stream_state 5 (run (request_frame ∷ ping ∷ []) fresh))
run-stage_example = run-stage (request_frame ∷ ping ∷ []) fresh 5
