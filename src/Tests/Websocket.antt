-- ===== src/Tests/Websocket.antt =====
-- WebSocket at concrete inputs.
use libspaznet.Base.{◌≡◌, refl, true, false, [], ◌∷◌, ◌++◌, arith}
use libspaznet.Utils.Binary.{encode_uint32_be}
use libspaznet.Websocket.Frame.{
  text, Frame, is_known_opcode, is_control_opcode, byte1, length_bytes, key_byte, mask_from,
  serialize, parse, answers,
}
use libspaznet.Websocket.Frame.RoundTrip.{IsFrame, parse-serialize_frame}
use libspaznet.Websocket.Session.{opened, handle_frame, on_data}
use libspaznet.Websocket.Session.Cuts.{on_data-on_data}
use libspaznet.Websocket.Session.Frames.{ready, announced, on_data-serialize}

abbrev hello : Frame
hello = record {
  fin = true;
  rsv1 = false;
  rsv2 = false;
  rsv3 = false;
  opcode = text;
  masked = true;
  payload_length = 5;
  masking_key = 0x37fa213d;
  payload = 0x48 ∷ 0x65 ∷ 0x6c ∷ 0x6c ∷ 0x6f ∷ [];
}

hello-IsFrame : IsFrame hello
unfolding is_known_opcode is_control_opcode
hello-IsFrame = record {
  known = refl;
  no_rsv1 = refl;
  no_rsv2 = refl;
  no_rsv3 = refl;
  control = refl;
  counted = refl;
  sized = omega arith;
  key = omega arith;
  no_key = λ e. absurd (cc e);
}

-- The example of RFC 6455, section 5.7.
hello_test :
    serialize hello
    ≡ 0x81 ∷ 0x85 ∷ 0x37 ∷ 0xfa ∷ 0x21 ∷ 0x3d ∷ 0x7f ∷ 0x9f ∷ 0x4d ∷ 0x51 ∷ 0x58 ∷ []
unfolding serialize byte1 length_bytes mask_from key_byte encode_uint32_be
hello_test = refl

parse-serialize_frame_example : parse (serialize hello ++ (0x89 ∷ [])) ≡ answers hello
parse-serialize_frame_example = parse-serialize_frame hello (0x89 ∷ []) hello-IsFrame

on_data-on_data_example :
    on_data (0x3d ∷ 0x7f ∷ []) (on_data (0x81 ∷ 0x82 ∷ 0x37 ∷ 0xfa ∷ 0x21 ∷ []) (opened []))
    ≡ on_data (0x81 ∷ 0x82 ∷ 0x37 ∷ 0xfa ∷ 0x21 ∷ 0x3d ∷ 0x7f ∷ []) (opened [])
on_data-on_data_example =
    on_data-on_data (0x81 ∷ 0x82 ∷ 0x37 ∷ 0xfa ∷ 0x21 ∷ []) (0x3d ∷ 0x7f ∷ []) (opened [])

on_data-serialize_example :
    (on_data (serialize hello) (ready (opened []))
      ≡ (handle_frame text true hello.payload (announced hello (opened []))).1)
    × ((on_data (serialize hello) (ready (opened []))).buffer ≡ [])
on_data-serialize_example = on_data-serialize hello (opened []) hello-IsFrame refl
