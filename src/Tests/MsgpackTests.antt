-- ===== src/Tests/MsgpackTests.antt =====
-- kettlingar/msgpack_to_json.go on concrete streams.
use kettlingar_go.Prelude.{
  ◌≡◌, refl, arith, Bytes, List, [], ◌∷◌, ◌++◌, codes, pos, negsuc, true, some,
}
use kettlingar_go.Text.Decimal.{decimal, decimal_ℤ, spelled, spelled-decimal}
use kettlingar_go.Text.Hex.{hex, unhex, unhex-hex}
use kettlingar_go.Text.Quote.{quote}
use kettlingar_go.Msgpack.Reader.{
  Outcome, done, fail, unknown_prefix, unexpected_eof, read_full, read_uint,
}
use kettlingar_go.Msgpack.Convert.{
  Printers, new_json_converter, convert, decode_next, convert_from, convert_round, dispatch,
  dispatch_scalar, dispatch_sized, dispatch_tail, decode_map, map_items, decode_array, array_items,
  read_and_print_str, print_uint, with_length, read_and_print_bin, decode_extension,
  print_extension, decode_timestamp, print_timestamp, label, extension_name, MsgpackJsonConverter,
}
use kettlingar_go.Msgpack.Document.{
  Doc, nil, str, arr, sint, w16, dict, time64, no_items, item, no_pairs, pair, fix, h8, h16, encode,
  header, encode_items, IsLegal, AreLegal, render, render_items,
}
use kettlingar_go.Msgpack.RoundTrip.{decode_next-encode}
use kettlingar_go.Msgpack.Stream.{wire, lines, convert-wire}
use kettlingar_go.Msgpack.Total.{Ends, convert-Ends, Consumes, decode_next-Consumes}
use kettlingar_go.Msgpack.Truncated.{convert_truncated, next_separator}

abbrev printers : Printers
printers = record {
  float32_g = λ bits. decimal bits;
  float64_g = λ bits. decimal bits;
  rfc3339_nano = λ sec nsec. decimal_ℤ sec ++ (codes "." ++ decimal_ℤ nsec);
  is_print = λ r. true;
}

run : Bytes → Outcome
unfolding convert convert_from convert_round decode_next dispatch dispatch_scalar dispatch_sized
    dispatch_tail decode_map map_items decode_array array_items read_and_print_str read_full
    print_uint with_length read_uint read_and_print_bin decode_extension print_extension
    decode_timestamp print_timestamp label extension_name quote decimal_ℤ hex
run = convert printers new_json_converter

-- {"a": [1, -2]} and 0xc1.
run_map :
    run (0x81 ∷ 0xa1 ∷ b'a' ∷ 0x92 ∷ 1 ∷ 0xfe ∷ 0xc1 ∷ [])
    ≡ fail (unknown_prefix 0xc1) (record { input = []; output = codes "{\"a\": [1, -2]}\n" })
unfolding run
run_map = refl

abbrev sample : List Doc
sample =
    dict fix (pair (str fix (codes "a")) (arr h16 (item (sint w16 (negsuc 299)) no_items)) no_pairs)
    ∷ time64 5 7
    ∷ []

convert-wire_example :
    convert printers new_json_converter (wire sample)
    ≡ done (record { input = []; output = lines printers new_json_converter sample })
unfolding IsLegal AreLegal
convert-wire_example = convert-wire printers new_json_converter sample (omega arith)

lines-sample : lines printers new_json_converter sample ≡ codes "{\"a\": [-300]}\n\"7.5\"\n"
unfolding render quote decimal_ℤ
lines-sample = refl

decode_next_document :
    decode_next printers new_json_converter 9
      (record { input = encode (str h8 (codes "hi")) ++ 0xc0 ∷ []; output = [] })
    ≡ done (record {
      input = 0xc0 ∷ [];
      output = render printers new_json_converter (str h8 (codes "hi"));
    })
unfolding IsLegal encode
decode_next_document =
    decode_next-encode printers new_json_converter (str h8 (codes "hi")) 9 (0xc0 ∷ []) []
      (omega arith) (omega arith)

-- A timestamp of eight bytes, a text cut short, and a number that is not there.
run_others :
    (run (0xd7 ∷ 0xff ∷ 0 ∷ 0 ∷ 0 ∷ 20 ∷ 0 ∷ 0 ∷ 0 ∷ 7 ∷ [])
      ≡ done (record { input = []; output = codes "\"7.5\"\n" }))
    × (run (0xa3 ∷ b'a' ∷ []) ≡ fail unexpected_eof (record { input = []; output = [] }))
    × (run (0xcd ∷ []) ≡ done (record { input = []; output = codes "0\n" }))
unfolding run
run_others = (refl, refl, refl)

abbrev coffee : MsgpackJsonConverter
coffee = record { extension_names = (pos 1, codes "coffee") ∷ [] }

run_extension :
    convert printers coffee (0xd5 ∷ 1 ∷ 0xca ∷ 0xfe ∷ [])
    ≡ done (record { input = []; output = codes "[\"coffee\", \"cafe\"]\n" })
unfolding run
run_extension = refl

convert-Ends_example : Ends printers new_json_converter (run (0xa3 ∷ b'a' ∷ []))
unfolding run
convert-Ends_example = convert-Ends printers new_json_converter (0xa3 ∷ b'a' ∷ [])

decode_next_ends :
    Consumes printers new_json_converter 2
      (decode_next printers new_json_converter 3 (record { input = 0xc0 ∷ 1 ∷ []; output = [] }))
decode_next_ends =
    decode_next-Consumes printers new_json_converter 3
      (record { input = 0xc0 ∷ 1 ∷ []; output = [] }) (omega arith)

convert_truncated_example :
    convert printers new_json_converter
      (header 0x90 0 0xdc 0xdd fix 3 ++ encode_items (item nil no_items))
    ≡ done (record {
      input = [];
      output =
          codes "["
          ++ (render_items printers new_json_converter true (item nil no_items)
              ++ next_separator true (item nil no_items));
    })
unfolding AreLegal IsLegal
convert_truncated_example =
    convert_truncated printers new_json_converter fix 3 (item nil no_items) (omega arith)
      (omega arith) (omega arith)

spelled-decimal_test : spelled 0 (decimal 4096) ≡ 4096
spelled-decimal_test = spelled-decimal 4096

unhex-hex_test : unhex (hex (0xca ∷ 0xfe ∷ [])) ≡ some (0xca ∷ 0xfe ∷ [])
unhex-hex_test = unhex-hex (0xca ∷ 0xfe ∷ []) (omega arith)
