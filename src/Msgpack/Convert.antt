-- ===== src/Msgpack/Convert.antt =====
-- MsgpackJsonConverter of kettlingar/msgpack_to_json.go. `Printers` stands for the parts of the
-- standard library that print floats (%g), format times and know which runes are printable.
use kettlingar_go.Prelude.{
  ℕ, zero, suc, ◌-◌, ◌/◌, ◌%◌, ◌^◌, Bool, true, false, ◌&&◌, Bytes, List, [], ◌∷◌, ◌++◌, leb, ◌==◌,
  if◌then◌else◌, length, take, drop, codes, Option, none, some, ℤ, pos, negsuc, signed,
}
use kettlingar_go.Text.Decimal.{decimal, decimal_ℤ}
use kettlingar_go.Text.Hex.{hex}
use kettlingar_go.Text.Quote.{quote}
use kettlingar_go.Msgpack.Reader.{
  Io, eof, out_of_fuel, unknown_prefix, invalid_timestamp_size, Outcome, done, fail, after, print,
  big_endian, read_uint, read_full,
}

pub record Printers : Type 0 where
  pub float32_g : ℕ → Bytes
  pub float64_g : ℕ → Bytes
  pub rfc3339_nano : ℤ → ℤ → Bytes
  pub is_print : ℕ → Bool

pub record MsgpackJsonConverter : Type 0 where
  pub extension_names : List (ℤ × Bytes)

abbrev pub new_json_converter : MsgpackJsonConverter
new_json_converter = record { extension_names = (negsuc 0, codes "ts") ∷ [] }

abbrev pub eq_ℤ : ℤ → ℤ → Bool
eq_ℤ (pos a) (pos b) = a == b
eq_ℤ (negsuc a) (negsuc b) = a == b
eq_ℤ _ _ = false

unfoldable pub extension_name : List (ℤ × Bytes) → ℤ → Option Bytes
extension_name [] typ = none
extension_name ((t, name) ∷ rest) typ = if eq_ℤ t typ then some name else extension_name rest typ

-- Conversions of Go's fixed-width unsigned integers to the signed type of the same width.
abbrev pub as_int8 : ℕ → ℤ
as_int8 = signed 0x80

abbrev pub as_int16 : ℕ → ℤ
as_int16 = signed 0x8000

abbrev pub as_int32 : ℕ → ℤ
as_int32 = signed 0x8000_0000

abbrev pub as_int64 : ℕ → ℤ
as_int64 = signed 0x8000_0000_0000_0000

module _ (lib : Printers) (c : MsgpackJsonConverter) where
  -- `fmt.Fprintf(w, "%d", c.readUintN(r))`, with the conversion that the case applies.
  unfoldable pub print_uint : ℕ → (ℕ → Bytes) → Io → Outcome
  print_uint size text io = let (x, io') = read_uint size io in done (print (text x) io')

  -- A length of `size` bytes, handed on to `k`.
  unfoldable pub with_length : ℕ → (ℕ → Io → Outcome) → Io → Outcome
  with_length size k io = let (n, io') = read_uint size io in k n io'

  unfoldable pub read_and_print_str : ℕ → Io → Outcome
  read_and_print_str size io =
      read_full size io (λ buf io'. done (print (quote lib.is_print buf) io'))

  unfoldable pub read_and_print_bin : ℕ → Io → Outcome
  read_and_print_bin size io =
      read_full size io (λ buf io'. done (print (b'"' ∷ (hex buf ++ b'"' ∷ [])) io'))

  unfoldable pub print_timestamp : ℤ → ℤ → Io → Outcome
  print_timestamp sec nsec io = done (print (quote lib.is_print (lib.rfc3339_nano sec nsec)) io)

  unfoldable pub decode_timestamp : ℕ → Bytes → Io → Outcome
  decode_timestamp size buf io =
      if size == 4
      then print_timestamp (pos (big_endian buf)) (pos 0) io
      else if size == 8
      then (let val = big_endian buf in
          print_timestamp (as_int64 (val % 2 ^ 34)) (as_int64 (val / 2 ^ 34)) io)
      else if size == 12
      then print_timestamp (as_int64 (big_endian (drop 4 buf))) (pos (big_endian (take 4 buf))) io
      else fail (invalid_timestamp_size size) io

  -- `%#v` of the label: a quoted name, or the type's number.
  unfoldable pub label : ℤ → Bytes
  label typ = elim (extension_name c.extension_names typ) [
    | some name ↦ quote lib.is_print name
    | none ↦ decimal_ℤ typ
  ]

  unfoldable pub print_extension : ℕ → ℤ → Bytes → Io → Outcome
  print_extension size typ buf io =
      if eq_ℤ typ (negsuc 0)
      then decode_timestamp size buf io
      else done (print (b'[' ∷ (label typ ++ (codes ", \"" ++ (hex buf ++ codes "\"]")))) io)

  unfoldable pub decode_extension : ℕ → Io → Outcome
  decode_extension size io = read_full 1 io (λ typ_buf io1.
      read_full size io1 (λ buf io2. print_extension size (as_int8 (big_endian typ_buf)) buf io2))

  -- The loops of decodeArray and decodeMap; `first` is `i == 0` and the number is what is left.
  unfoldable pub array_items : (Io → Outcome) → Bool → ℕ → Io → Outcome
  array_items next first zero io = done io
  array_items next first (suc left) io =
      after (next (if first then io else print (codes ", ") io)) (array_items next false left)

  unfoldable pub map_items : (Io → Outcome) → Bool → ℕ → Io → Outcome
  map_items next first zero io = done io
  map_items next first (suc left) io =
      after (next (if first then io else print (codes ", ") io))
        λ io'. after (next (print (codes ": ") io')) (map_items next false left)

  unfoldable pub decode_array : (Io → Outcome) → ℕ → Io → Outcome
  decode_array next size io =
      after (array_items next true size (print (codes "[") io))
        (λ io'. done (print (codes "]") io'))

  unfoldable pub decode_map : (Io → Outcome) → ℕ → Io → Outcome
  decode_map next size io =
      after (map_items next true size (print (codes "{") io)) (λ io'. done (print (codes "}") io'))

  -- The `switch` of decodeNext in four parts, each going on to the next where no case fits.
  unfoldable pub dispatch_tail : ℕ → Io → Outcome
  dispatch_tail p io =
      if leb 0xd4 p && leb p 0xd8
      then decode_extension (2 ^ (p - 0xd4)) io
      else if p == 0xc7
      then with_length 1 decode_extension io
      else if p == 0xc8
      then with_length 2 decode_extension io
      else if p == 0xc9
      then with_length 4 decode_extension io
      else if leb 0xe0 p
      then done (print (decimal_ℤ (as_int8 p)) io)
      else fail (unknown_prefix p) io

  unfoldable pub dispatch_sized : (Io → Outcome) → ℕ → Io → Outcome
  dispatch_sized next p io =
      if p == 0xd9
      then with_length 1 read_and_print_str io
      else if p == 0xda
      then with_length 2 read_and_print_str io
      else if p == 0xdb
      then with_length 4 read_and_print_str io
      else if p == 0xdc
      then with_length 2 (decode_array next) io
      else if p == 0xdd
      then with_length 4 (decode_array next) io
      else if p == 0xde
      then with_length 2 (decode_map next) io
      else if p == 0xdf
      then with_length 4 (decode_map next) io
      else if p == 0xc4
      then with_length 1 read_and_print_bin io
      else if p == 0xc5
      then with_length 2 read_and_print_bin io
      else if p == 0xc6
      then with_length 4 read_and_print_bin io
      else dispatch_tail p io

  unfoldable pub dispatch_scalar : (Io → Outcome) → ℕ → Io → Outcome
  dispatch_scalar next p io =
      if p == 0xc0
      then done (print (codes "null") io)
      else if p == 0xc2
      then done (print (codes "false") io)
      else if p == 0xc3
      then done (print (codes "true") io)
      else if p == 0xca
      then print_uint 4 lib.float32_g io
      else if p == 0xcb
      then print_uint 8 lib.float64_g io
      else if p == 0xcc
      then print_uint 1 decimal io
      else if p == 0xcd
      then print_uint 2 decimal io
      else if p == 0xce
      then print_uint 4 decimal io
      else if p == 0xcf
      then print_uint 8 decimal io
      else if p == 0xd0
      then print_uint 1 (λ x. decimal_ℤ (as_int8 x)) io
      else if p == 0xd1
      then print_uint 2 (λ x. decimal_ℤ (as_int16 x)) io
      else if p == 0xd2
      then print_uint 4 (λ x. decimal_ℤ (as_int32 x)) io
      else if p == 0xd3
      then print_uint 8 (λ x. decimal_ℤ (as_int64 x)) io
      else dispatch_sized next p io

  unfoldable pub dispatch : (Io → Outcome) → ℕ → Io → Outcome
  dispatch next p io =
      if leb p 0x7f
      then done (print (decimal p) io)
      else if leb 0x80 p && leb p 0x8f
      then decode_map next (p % 16) io
      else if leb 0x90 p && leb p 0x9f
      then decode_array next (p % 16) io
      else if leb 0xa0 p && leb p 0xbf
      then read_and_print_str (p % 32) io
      else dispatch_scalar next p io

  -- The fuel bounds the nesting; Total shows that the length of the input is enough.
  unfoldable pub decode_next : ℕ → Io → Outcome
  decode_next zero io = fail out_of_fuel io
  decode_next (suc fuel) io = elim io.input [
    | [] ↦ fail eof io
    | p ∷ rest ↦ dispatch (decode_next fuel) p (record io { input = rest })
  ]

  -- One round of Convert: io.EOF ends it with nil, any other error is returned.
  unfoldable pub convert_round : Outcome → (Io → Outcome) → Outcome
  convert_round (done io) k = k (print (codes "\n") io)
  convert_round (fail eof io) k = done io
  convert_round (fail e io) k = fail e io

  -- The loop of Convert, with fuel for its rounds and for the nesting in each.
  unfoldable pub convert_from : ℕ → ℕ → Io → Outcome
  unfolding convert_round
  convert_from depth zero io = fail out_of_fuel io
  convert_from depth (suc rounds) io =
      convert_round (decode_next depth io) (convert_from depth rounds)

  unfoldable pub convert : Bytes → Outcome
  convert stream =
      let enough = suc (length stream) in
      convert_from enough enough (record { input = stream; output = [] })
