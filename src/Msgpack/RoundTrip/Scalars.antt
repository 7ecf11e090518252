-- ===== src/Msgpack/RoundTrip/Scalars.antt =====
-- Numbers, extensions and timestamps, with any `rest` in the stream.
use kettlingar_go.Prelude.{
  ℕ, ◌+◌, ◌*◌, ◌^◌, ◌<◌, ◌≡◌, ◌≢◌, refl, ap, ap₂, ◌∙◌, arith, false, Bytes, [], ◌∷◌, ◌++◌, length,
  append_assoc, ℤ, pos, negsuc, signed,
}
use native.Mathlib.Nat.{zero-add}
use kettlingar_go.Text.Decimal.{decimal, decimal_ℤ}
use kettlingar_go.Text.Quote.{quote}
use kettlingar_go.Msgpack.Reader.{
  Io, Outcome, done, to_big_endian, big_endian-to_big_endian, read_full_lem,
}
use kettlingar_go.Msgpack.Convert.{
  Printers, MsgpackJsonConverter, print_uint, dispatch_tail, dispatch_sized, dispatch_scalar,
  dispatch, as_int8, as_int64, decode_extension, print_extension, decode_timestamp, print_timestamp,
  label, eq_ℤ,
}
use kettlingar_go.Msgpack.Document.{
  Width, w8, w16, w32, w64, Header, half_of, pattern_of, InRange, Doc, encode, render, uint, sint,
  float32, float64, ext, time32, time64, time96, IsLegal, bytes_of, render_type,
}
use kettlingar_go.Msgpack.RoundTrip.Headers.{
  io_of, enter, with_length_lem, print_uint_lem, signed-pattern_of, ext-header,
}

pattern-lt :
    (w : Width) (z : ℤ) → InRange (half_of w) z → pattern_of (half_of w) z < 256 ^ bytes_of w
pattern-lt w8 (pos n) h = omega arith
pattern-lt w8 (negsuc n) h = omega arith
pattern-lt w16 (pos n) h = omega arith
pattern-lt w16 (negsuc n) h = omega arith
pattern-lt w32 (pos n) h = omega arith
pattern-lt w32 (negsuc n) h = omega arith
pattern-lt w64 (pos n) h = omega arith
pattern-lt w64 (negsuc n) h = omega arith

eq_ℤ_ne : (a b : ℤ) → a ≢ b → eq_ℤ a b ≡ false
eq_ℤ_ne (pos a) (pos b) h = ground arith
eq_ℤ_ne (pos a) (negsuc b) h = refl
eq_ℤ_ne (negsuc a) (pos b) h = refl
eq_ℤ_ne (negsuc a) (negsuc b) h = ground arith

as_int64_lem : (x n : ℕ) → x ≡ n → n < 2 ^ 34 → as_int64 x ≡ pos n
as_int64_lem x n e h = ground arith

module _ (lib : Printers) (c : MsgpackJsonConverter) (next : Io → Outcome) where
  -- What the converter makes of `d` on the wire, with any `rest` behind it.
  abbrev pub Reads : Doc → Type 0
  Reads d =
      (rest out : Bytes)
      → IsLegal d
      → enter lib c next (encode d ++ rest) out ≡ done (io_of rest (out ++ render lib c d))

  pub enter-uint : (w : Width) (n : ℕ) → Reads (uint w n)
  unfolding dispatch dispatch_scalar encode IsLegal render
  enter-uint w8 n rest out h = print_uint_lem lib c 1 decimal n rest out h
  enter-uint w16 n rest out h = print_uint_lem lib c 2 decimal n rest out h
  enter-uint w32 n rest out h = print_uint_lem lib c 4 decimal n rest out h
  enter-uint w64 n rest out h = print_uint_lem lib c 8 decimal n rest out h

  abbrev signed_text : Width → ℕ → Bytes
  signed_text w x = decimal_ℤ (signed (half_of w) x)

  sint_text :
      (w : Width) (z : ℤ) (rest out : Bytes)
      → InRange (half_of w) z
      → print_uint lib c
          (bytes_of w)
          (signed_text w)
          (io_of (to_big_endian (bytes_of w) (pattern_of (half_of w) z) ++ rest) out)
        ≡ done (io_of rest (out ++ decimal_ℤ z))
  sint_text w z rest out h =
      print_uint_lem lib c (bytes_of w) (signed_text w) _ rest out (pattern-lt w z h)
      ∙ ap (λ (y : ℤ). done (io_of rest (out ++ decimal_ℤ y))) (signed-pattern_of w z h)

  pub enter-sint : (w : Width) (z : ℤ) → Reads (sint w z)
  unfolding dispatch dispatch_scalar encode IsLegal render
  enter-sint w8 z rest out h = sint_text w8 z rest out h
  enter-sint w16 z rest out h = sint_text w16 z rest out h
  enter-sint w32 z rest out h = sint_text w32 z rest out h
  enter-sint w64 z rest out h = sint_text w64 z rest out h

  pub enter-float32 : (bits : ℕ) → Reads (float32 bits)
  unfolding dispatch dispatch_scalar encode IsLegal render
  enter-float32 bits rest out h = print_uint_lem lib c 4 lib.float32_g bits rest out h

  pub enter-float64 : (bits : ℕ) → Reads (float64 bits)
  unfolding dispatch dispatch_scalar encode IsLegal render
  enter-float64 bits rest out h = print_uint_lem lib c 8 lib.float64_g bits rest out h

  -- The type byte and the data of an extension.
  decode_extension_lem :
      (typ : ℕ) (s rest out : Bytes)
      → typ < 256
      → decode_extension lib c (length s) (io_of (typ ∷ (s ++ rest)) out)
        ≡ print_extension lib c (length s) (as_int8 typ) s (io_of rest out)
  unfolding decode_extension
  decode_extension_lem typ s rest out h =
      read_full_lem (typ ∷ []) (s ++ rest) out _ ∙ read_full_lem s rest out _ ∙ rw (zero-add typ)

  label-render_type : (typ : ℤ) → label lib c typ ≡ render_type lib c typ
  unfolding label
  label-render_type typ = ground arith

  pub enter-ext : (h : Header) (typ : ℤ) (s : Bytes) → Reads (ext h typ s)
  unfolding encode IsLegal render print_extension
  enter-ext h typ s rest out (fits, range, ne) =
      ap (λ b. enter lib c next b out) (append_assoc _ _ rest)
      ∙ ext-header lib c next h (length s) _ out fits
      ∙ decode_extension_lem (pattern_of 0x80 typ) s rest out (pattern-lt w8 typ range)
      ∙ rw (signed-pattern_of w8 typ range, eq_ℤ_ne typ (negsuc 0) ne, label-render_type typ)

  time_data :
      (s rest out : Bytes)
      → decode_extension lib c (length s) (io_of (0xff ∷ (s ++ rest)) out)
        ≡ decode_timestamp lib c (length s) s (io_of rest out)
  unfolding print_extension
  time_data s rest out = decode_extension_lem 0xff s rest out (omega arith)

  abbrev shown : Bytes → Bytes → ℤ → ℤ → Outcome
  shown rest out sec nsec =
      done (io_of rest (out ++ quote lib.is_print (lib.rfc3339_nano sec nsec)))

  pub enter-time32 : (sec : ℕ) → Reads (time32 sec)
  unfolding encode IsLegal render dispatch dispatch_scalar dispatch_sized dispatch_tail
      decode_timestamp print_timestamp
  enter-time32 sec rest out h =
      time_data (to_big_endian 4 sec) rest out ∙ rw (big_endian-to_big_endian 4 sec h)

  pub enter-time64 : (nsec sec : ℕ) → Reads (time64 nsec sec)
  unfolding encode IsLegal render dispatch dispatch_scalar dispatch_sized dispatch_tail
      decode_timestamp print_timestamp
  enter-time64 nsec sec rest out h =
      time_data (to_big_endian 8 (nsec * 2 ^ 34 + sec)) rest out
      ∙ rw (big_endian-to_big_endian 8 (nsec * 2 ^ 34 + sec) (omega arith)) (
          ap₂ (shown rest out) (as_int64_lem _ sec (omega arith) (omega arith))
            (as_int64_lem _ nsec (omega arith) (omega arith)))

  pub enter-time96 : (nsec : ℕ) (sec : ℤ) → Reads (time96 nsec sec)
  unfolding encode IsLegal render dispatch dispatch_scalar dispatch_sized dispatch_tail
      decode_timestamp print_timestamp
  enter-time96 nsec sec rest out (small, range) =
      let pattern = pattern_of (half_of w64) sec in
      with_length_lem lib c 1 (decode_extension lib c) 12 _ out (omega arith)
      ∙ time_data (to_big_endian 4 nsec ++ to_big_endian 8 pattern) rest out
      ∙ ap₂ (shown rest out)
          (ap as_int64 (big_endian-to_big_endian 8 pattern (pattern-lt w64 sec range))
            ∙ signed-pattern_of w64 sec range)
          (ap pos (big_endian-to_big_endian 4 nsec small))
