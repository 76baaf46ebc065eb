-- ===== src/Tests/Texts.antt =====
-- Numbers, headers and Huffman coding at concrete inputs.
use libspaznet.Base.{Bytes, ◌≡◌, refl, ◌↔◌, none, some, List, [], ◌∷◌, arith}
use libspaznet.Base.Text.{text}
use libspaznet.Base.Ints.{negsuc}
use libspaznet.Utils.Number.{
  parse_uint64, parse_int, parse_digits, parse_unsigned, parse_magnitude, signed,
}
use libspaznet.Utils.Number.Strict.{IsUint64, parse_uint64_iff}
use libspaznet.Utils.Number.Signed.{Denotes, parse_int_iff}
use libspaznet.Utils.Header.{Answers, get_header_case_insensitive, get_header-Answers}
use libspaznet.Utils.Text.{trim_ows}
use libspaznet.Utils.Text.Trim.{Trims, trim_ows-Trims}
use libspaznet.Codec.Huffman.{huffman_encode, huffman_decode, encode_from, flush}
use libspaznet.Codec.Huffman.RoundTrip.{huffman_decode-huffman_encode}
use libspaznet.Codec.Huffman.Table.{table}

parse_uint64_iff_example :
    (parse_uint64 (text "18446744073709551615") ≡ some 18446744073709551615)
    ↔ IsUint64 (text "18446744073709551615") 18446744073709551615
parse_uint64_iff_example = parse_uint64_iff (text "18446744073709551615") 18446744073709551615

-- The largest number, and the first that does not fit; no sign, space or prefix.
strict_numbers :
    (parse_uint64 (text "18446744073709551615") ≡ some 18446744073709551615)
    × (parse_uint64 (text "18446744073709551616") ≡ none)
    × (parse_uint64 (text "+5") ≡ none)
    × (parse_uint64 (text "5 ") ≡ none)
    × (parse_uint64 (text "0x10") ≡ none)
    × (parse_uint64 [] ≡ none)
unfolding parse_uint64 parse_digits
strict_numbers = (refl, refl, refl, refl, refl, refl)

parse_int_iff_example :
    (parse_int (text "-2147483648") ≡ some (negsuc 2147483647))
    ↔ Denotes (text "-2147483648") (negsuc 2147483647)
parse_int_iff_example = parse_int_iff (text "-2147483648") (negsuc 2147483647)

lowest_int :
    (parse_int (text "-2147483648") ≡ some (negsuc 2147483647))
    × (parse_int (text "2147483648") ≡ none)
    × (parse_int (text "-") ≡ none)
unfolding parse_int parse_unsigned parse_magnitude signed
lowest_int = (refl, refl, refl)

abbrev two_headers : List (Bytes × Bytes)
two_headers = (text "Host", text "a") ∷ (text "host", text "b") ∷ []

get_header-Answers_example :
    Answers two_headers (text "HOST") (get_header_case_insensitive two_headers (text "HOST"))
get_header-Answers_example = get_header-Answers two_headers (text "HOST")

trim_ows-Trims_example : Trims (text " a b ") (trim_ows (text " a b "))
trim_ows-Trims_example = trim_ows-Trims (text " a b ")

huffman_decode-huffman_encode_example :
    huffman_decode (huffman_encode (text "ok")) ≡ some (text "ok")
huffman_decode-huffman_encode_example =
    huffman_decode-huffman_encode (text "ok") (omega arith, (omega arith, tt))

-- RFC 7541, C.4.1.
www_example :
    huffman_encode (text "www.example.com")
    ≡ 0xf1 ∷ 0xe3 ∷ 0xc2 ∷ 0xe5 ∷ 0xf2 ∷ 0x3a ∷ 0x6b ∷ 0xa0 ∷ 0xab ∷ 0x90 ∷ 0xf4 ∷ 0xff ∷ []
unfolding huffman_encode encode_from flush table
www_example = refl
