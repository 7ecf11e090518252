-- ===== src/Msgpack/Total.antt =====
-- The fuel of decode_next and of Convert is enough, and every read shortens the input.
use kettlingar_go.Prelude.{
  ℕ, zero, suc, ◌-◌, ◌<◌, ◌≤◌, ◌≡◌, ◌≢◌, refl, arith, Bool, true, false, Bytes, [], ◌∷◌, length,
  length-drop, ltb, ℤ, if◌then◌else◌, Bool-cases, inl, inr, codes, ◌^◌, ◌%◌,
}
use kettlingar_go.Text.Decimal.{decimal, decimal_ℤ}
use kettlingar_go.Msgpack.Reader.{
  Io, eof, out_of_fuel, Outcome, done, fail, after, print, read_uint, read_full,
}
use kettlingar_go.Msgpack.Convert.{
  Printers, MsgpackJsonConverter, print_uint, with_length, read_and_print_str, read_and_print_bin,
  print_timestamp, decode_timestamp, print_extension, decode_extension, array_items, map_items,
  decode_array, decode_map, dispatch_tail, dispatch_sized, dispatch_scalar, dispatch, decode_next,
  convert_round, convert_from, convert, as_int8, as_int16, as_int32, as_int64,
}

-- At most `n` bytes are left, or the error is one of the program's own.
abbrev pub Settles : ℕ → Outcome → Type 0
Settles n (done io) = length io.input ≤ n
Settles n (fail e io) = e ≢ out_of_fuel

Settles-mono : {m n : ℕ} (o : Outcome) → m ≤ n → Settles m o → Settles n o
Settles-mono (done io) h s = omega arith
Settles-mono (fail e io) h s = s

Settles-after :
    (n : ℕ) (o : Outcome) (k : Io → Outcome)
    → Settles n o
    → ((io : Io) → length io.input ≤ n → Settles n (k io))
    → Settles n (after o k)
Settles-after n (done io) k s h = h io s
Settles-after n (fail e io) k s h = s

-- `k` settles wherever at most `n` bytes are left.
abbrev SettlesFrom : ℕ → (Io → Outcome) → Type 0
SettlesFrom n k = (io : Io) → length io.input ≤ n → Settles (length io.input) (k io)

read_full-Settles :
    (size : ℕ) (io : Io) (k : Bytes → Io → Outcome) (n : ℕ)
    → length io.input ≤ n
    → ((buf : Bytes) (io' : Io) → length io'.input ≤ n → Settles n (k buf io'))
    → Settles n (read_full size io k)
unfolding read_full
read_full-Settles size io k n h each = elim (Bool-cases (ltb (length io.input) size)) [
  | inl short ↦ rw short (ground arith)
  | inr full ↦ rw full (each _ _ (omega (arith, length-drop size io.input)))
]

module _ (lib : Printers) (c : MsgpackJsonConverter) where
  print_uint-Settles :
      (size : ℕ) (text : ℕ → Bytes) (io : Io)
      → Settles (length io.input) (print_uint lib c size text io)
  unfolding print_uint read_uint
  print_uint-Settles size text io = omega (arith, length-drop size io.input)

  with_length-Settles :
      (size : ℕ) (k : ℕ → Io → Outcome) (n : ℕ)
      → ((m : ℕ) → SettlesFrom n (k m))
      → SettlesFrom n (with_length lib c size k)
  unfolding with_length read_uint
  with_length-Settles size k n each io h =
      Settles-mono (with_length lib c size k io) (omega (arith, length-drop size io.input))
        (each _ _ (omega (arith, length-drop size io.input)))

  read_and_print_str-Settles : (size n : ℕ) → SettlesFrom n (read_and_print_str lib c size)
  unfolding read_and_print_str
  read_and_print_str-Settles size n io h =
      read_full-Settles size io _ (length io.input) (omega arith) (λ buf io' h'. h')

  read_and_print_bin-Settles : (size n : ℕ) → SettlesFrom n (read_and_print_bin lib c size)
  unfolding read_and_print_bin
  read_and_print_bin-Settles size n io h =
      read_full-Settles size io _ (length io.input) (omega arith) (λ buf io' h'. h')

  print_extension-Settles :
      (size : ℕ) (typ : ℤ) (buf : Bytes) (io : Io) (n : ℕ)
      → length io.input ≤ n
      → Settles n (print_extension lib c size typ buf io)
  unfolding print_extension decode_timestamp print_timestamp
  print_extension-Settles size typ buf io n h = ground arith

  decode_extension-Settles : (size n : ℕ) → SettlesFrom n (decode_extension lib c size)
  unfolding decode_extension
  decode_extension-Settles size n io h =
      read_full-Settles 1 io _ (length io.input) (omega arith) λ t io1 h1.
        read_full-Settles size io1 _ (length io.input) h1
          λ buf io2 h2. print_extension-Settles size _ buf io2 (length io.input) h2

  module _ (next : Io → Outcome) (n : ℕ) (settles : SettlesFrom n next) where
    sized :
        (size : ℕ) (k : ℕ → Io → Outcome)
        → ((m : ℕ) → SettlesFrom n (k m))
        → SettlesFrom n (with_length lib c size k)
    sized size k each = with_length-Settles size k n each

    separated :
        (first : Bool) (io : Io)
        → length io.input ≤ n
        → Settles (length io.input) (next (if first then io else print (codes ", ") io))
    separated true io h = settles io h
    separated false io h = settles (print (codes ", ") io) h

    array_items-Settles :
        (first : Bool) (left : ℕ) → SettlesFrom n (array_items lib c next first left)
    unfolding array_items
    array_items-Settles first zero io h = omega arith
    array_items-Settles first (suc left) io h =
        Settles-after (length io.input) _ _ (separated first io h) λ io' h'.
          Settles-mono (array_items lib c next false left io') h'
            (array_items-Settles false left io' (omega arith))

    map_items-Settles : (first : Bool) (left : ℕ) → SettlesFrom n (map_items lib c next first left)
    unfolding map_items
    map_items-Settles first zero io h = omega arith
    map_items-Settles first (suc left) io h =
        Settles-after (length io.input) _ _ (separated first io h) λ io1 h1.
          Settles-after (length io.input) _ _
            (Settles-mono (next (print (codes ": ") io1)) h1 (settles _ (omega arith)))
            λ io2 h2.
              Settles-mono (map_items lib c next false left io2) h2
                (map_items-Settles false left io2 (omega arith))

    decode_array-Settles : (size : ℕ) → SettlesFrom n (decode_array lib c next size)
    unfolding decode_array
    decode_array-Settles size io h =
        Settles-after (length io.input) _ _ (array_items-Settles true size _ h) (λ io' h'. h')

    decode_map-Settles : (size : ℕ) → SettlesFrom n (decode_map lib c next size)
    unfolding decode_map
    decode_map-Settles size io h =
        Settles-after (length io.input) _ _ (map_items-Settles true size _ h) (λ io' h'. h')

    dispatch_tail-Settles : (p : ℕ) → SettlesFrom n (dispatch_tail lib c p)
    unfolding dispatch_tail
    dispatch_tail-Settles p io h = ground (
      arith,
      decode_extension-Settles (2 ^ (p - 0xd4)) n io h,
      with_length-Settles 1 (decode_extension lib c) n (λ m. decode_extension-Settles m n) io h,
      with_length-Settles 2 (decode_extension lib c) n (λ m. decode_extension-Settles m n) io h,
      with_length-Settles 4 (decode_extension lib c) n (λ m. decode_extension-Settles m n) io h,
    )

    dispatch_sized-Settles : (p : ℕ) → SettlesFrom n (dispatch_sized lib c next p)
    unfolding dispatch_sized
    dispatch_sized-Settles p io h = ground (
      arith,
      sized 1 (read_and_print_str lib c) (λ m. read_and_print_str-Settles m n) io h,
      sized 2 (read_and_print_str lib c) (λ m. read_and_print_str-Settles m n) io h,
      sized 4 (read_and_print_str lib c) (λ m. read_and_print_str-Settles m n) io h,
      sized 2 (decode_array lib c next) decode_array-Settles io h,
      sized 4 (decode_array lib c next) decode_array-Settles io h,
      sized 2 (decode_map lib c next) decode_map-Settles io h,
      sized 4 (decode_map lib c next) decode_map-Settles io h,
      sized 1 (read_and_print_bin lib c) (λ m. read_and_print_bin-Settles m n) io h,
      sized 2 (read_and_print_bin lib c) (λ m. read_and_print_bin-Settles m n) io h,
      sized 4 (read_and_print_bin lib c) (λ m. read_and_print_bin-Settles m n) io h,
      dispatch_tail-Settles p io h,
    )

    dispatch_scalar-Settles : (p : ℕ) → SettlesFrom n (dispatch_scalar lib c next p)
    unfolding dispatch_scalar
    dispatch_scalar-Settles p io h = ground (
      arith,
      print_uint-Settles 4 lib.float32_g io,
      print_uint-Settles 8 lib.float64_g io,
      print_uint-Settles 1 decimal io,
      print_uint-Settles 2 decimal io,
      print_uint-Settles 4 decimal io,
      print_uint-Settles 8 decimal io,
      print_uint-Settles 1 (λ x. decimal_ℤ (as_int8 x)) io,
      print_uint-Settles 2 (λ x. decimal_ℤ (as_int16 x)) io,
      print_uint-Settles 4 (λ x. decimal_ℤ (as_int32 x)) io,
      print_uint-Settles 8 (λ x. decimal_ℤ (as_int64 x)) io,
      dispatch_sized-Settles p io h,
    )

    dispatch-Settles : (p : ℕ) → SettlesFrom n (dispatch lib c next p)
    unfolding dispatch
    dispatch-Settles p io h = ground (
      arith,
      decode_map-Settles (p % 16) io h,
      decode_array-Settles (p % 16) io h,
      read_and_print_str-Settles (p % 32) n io h,
      dispatch_scalar-Settles p io h,
    )

  -- A call that returns has read at least one byte; one that fails does not fail for want of fuel.
  abbrev pub Consumes : ℕ → Outcome → Type 0
  Consumes n (done io) = length io.input < n
  Consumes n (fail e io) = e ≢ out_of_fuel

  Consumes-Settles : (n : ℕ) (o : Outcome) → Consumes n o → Settles n o
  Consumes-Settles n (done io) h = omega arith
  Consumes-Settles n (fail e io) h = h

  Settles-Consumes : (n : ℕ) (o : Outcome) → Settles n o → Consumes (suc n) o
  Settles-Consumes n (done io) h = omega arith
  Settles-Consumes n (fail e io) h = h

  next-Consumes :
      (fuel : ℕ) (input : Bytes) (io : Io)
      → io.input ≡ input
      → length input < fuel
      → Consumes (length input) (decode_next lib c fuel io)
  unfolding decode_next
  next-Consumes zero input io e h = elim h [ ]
  next-Consumes (suc fuel) [] io e h = rw (e, decode_next) (λ bad. cc)
  next-Consumes (suc fuel) (p ∷ rest) io e h =
      rw (e, decode_next)
        (Settles-Consumes (length rest) _ (
          dispatch-Settles (decode_next lib c fuel) (length rest)
            (λ io' h'. Consumes-Settles _ _ (next-Consumes fuel io'.input io' refl (omega arith))) p
            (record io { input = rest }) (omega arith)))

  -- With more fuel than bytes, decodeNext returns or fails with an error of its own; where it
  -- returns it has read at least one byte.
  pub decode_next-Consumes :
      (fuel : ℕ) (io : Io)
      → length io.input < fuel
      → Consumes (length io.input) (decode_next lib c fuel io)
  decode_next-Consumes fuel io h = next-Consumes fuel io.input io refl h

  -- Convert returned, or failed with an error of its own.
  abbrev pub Ends : Outcome → Type 0
  Ends (done io) = Unit
  Ends (fail e io) = e ≢ out_of_fuel

  round-Ends :
      (n : ℕ) (o : Outcome) (k : Io → Outcome)
      → Consumes n o
      → ((io : Io) → length io.input < n → Ends (k io))
      → Ends (convert_round lib c o k)
  unfolding convert_round
  round-Ends n (done io) k h each = each _ h
  round-Ends n (fail eof io) k h each = tt
  round-Ends n (fail _ io) k h each = h

  convert_from-Ends :
      (depth rounds : ℕ) (io : Io)
      → length io.input < depth
      → length io.input < rounds
      → Ends (convert_from lib c depth rounds io)
  unfolding convert_from
  convert_from-Ends depth zero io d r = elim r [ ]
  convert_from-Ends depth (suc rounds) io d r =
      round-Ends (length io.input) _ _ (decode_next-Consumes depth io d)
        (λ io' h. convert_from-Ends depth rounds io' (omega arith) (omega arith))

  -- Convert ends on every stream: the fuel that the model gives it is never used up.
  pub convert-Ends : (stream : Bytes) → Ends (convert lib c stream)
  unfolding convert
  convert-Ends stream =
      convert_from-Ends (suc (length stream)) (suc (length stream)) _ (omega arith) (omega arith)
