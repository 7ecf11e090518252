-- ===== src/Msgpack/RoundTrip/Headers.antt =====
-- What decodeNext does behind each first byte, with any `rest` in the stream.
use kettlingar_go.Prelude.{
  ℕ, ◌-◌, ◌^◌, ◌<◌, ◌≡◌, inl, inr, arith, Bytes, [], ◌∷◌, ◌++◌, length, ℤ, pos, negsuc, signed,
}
use kettlingar_go.Text.Decimal.{decimal, decimal_ℤ}
use kettlingar_go.Text.Hex.{hex}
use kettlingar_go.Text.Quote.{quote}
use kettlingar_go.Msgpack.Reader.{
  Io, Outcome, done, fail, eof, to_big_endian, read_uint_lem, read_full_lem,
}
use kettlingar_go.Msgpack.Convert.{
  Printers, MsgpackJsonConverter, print_uint, with_length, read_and_print_str, read_and_print_bin,
  decode_array, decode_map, decode_extension, dispatch_tail, dispatch_sized, dispatch_scalar,
  dispatch,
}
use kettlingar_go.Msgpack.Document.{
  Width, w8, w16, w32, w64, Header, fix, h8, h16, h32, header, Fits, half_of, pattern_of, InRange,
  ExtFits, ext_header,
}

abbrev pub io_of : Bytes → Bytes → Io
io_of input output = record { input = input; output = output }

-- The sign is read back from the pattern.
pub signed-pattern_of :
    (w : Width) (z : ℤ) → InRange (half_of w) z → signed (half_of w) (pattern_of (half_of w) z) ≡ z
signed-pattern_of w8 (pos n) h = ground arith
signed-pattern_of w8 (negsuc n) h = ground arith
signed-pattern_of w16 (pos n) h = ground arith
signed-pattern_of w16 (negsuc n) h = ground arith
signed-pattern_of w32 (pos n) h = ground arith
signed-pattern_of w32 (negsuc n) h = ground arith
signed-pattern_of w64 (pos n) h = ground arith
signed-pattern_of w64 (negsuc n) h = ground arith

module _ (lib : Printers) (c : MsgpackJsonConverter) where
  pub print_uint_lem :
      (size : ℕ) (text : ℕ → Bytes) (x : ℕ) (rest out : Bytes)
      → x < 256 ^ size
      → print_uint lib c size text (io_of (to_big_endian size x ++ rest) out)
        ≡ done (io_of rest (out ++ text x))
  unfolding print_uint
  print_uint_lem size text x rest out h = rw (read_uint_lem size x rest out h)

  pub with_length_lem :
      (size : ℕ) (k : ℕ → Io → Outcome) (x : ℕ) (rest out : Bytes)
      → x < 256 ^ size
      → with_length lib c size k (io_of (to_big_endian size x ++ rest) out) ≡ k x (io_of rest out)
  unfolding with_length
  with_length_lem size k x rest out h = rw (read_uint_lem size x rest out h)

  pub read_and_print_str_lem :
      (s rest out : Bytes)
      → read_and_print_str lib c (length s) (io_of (s ++ rest) out)
        ≡ done (io_of rest (out ++ quote lib.is_print s))
  unfolding read_and_print_str
  read_and_print_str_lem s rest out = read_full_lem s rest out _

  pub read_and_print_bin_lem :
      (s rest out : Bytes)
      → read_and_print_bin lib c (length s) (io_of (s ++ rest) out)
        ≡ done (io_of rest (out ++ (b'"' ∷ (hex s ++ b'"' ∷ []))))
  unfolding read_and_print_bin
  read_and_print_bin_lem s rest out = read_full_lem s rest out _

  module _ (next : Io → Outcome) where
    -- decodeNext behind the test for the end of the input.
    abbrev pub enter : Bytes → Bytes → Outcome
    enter [] out = fail eof (io_of [] out)
    enter (p ∷ rest) out = dispatch lib c next p (io_of rest out)

    pub str-header :
        (h : Header) (n : ℕ) (rest out : Bytes)
        → Fits 32 256 h n
        → enter (header 0xa0 0xd9 0xda 0xdb h n ++ rest) out
          ≡ read_and_print_str lib c n (io_of rest out)
    unfolding dispatch dispatch_scalar dispatch_sized
    str-header fix n rest out fits = unfold dispatch in ground arith
    str-header h8 n rest out fits = with_length_lem 1 (read_and_print_str lib c) n rest out fits
    str-header h16 n rest out fits = with_length_lem 2 (read_and_print_str lib c) n rest out fits
    str-header h32 n rest out fits = with_length_lem 4 (read_and_print_str lib c) n rest out fits

    pub bin-header :
        (h : Header) (n : ℕ) (rest out : Bytes)
        → Fits 0 256 h n
        → enter (header 0 0xc4 0xc5 0xc6 h n ++ rest) out
          ≡ read_and_print_bin lib c n (io_of rest out)
    unfolding dispatch dispatch_scalar dispatch_sized
    bin-header fix n rest out fits = elim fits [ ]
    bin-header h8 n rest out fits = with_length_lem 1 (read_and_print_bin lib c) n rest out fits
    bin-header h16 n rest out fits = with_length_lem 2 (read_and_print_bin lib c) n rest out fits
    bin-header h32 n rest out fits = with_length_lem 4 (read_and_print_bin lib c) n rest out fits

    pub arr-header :
        (h : Header) (n : ℕ) (rest out : Bytes)
        → Fits 16 0 h n
        → enter (header 0x90 0 0xdc 0xdd h n ++ rest) out
          ≡ decode_array lib c next n (io_of rest out)
    unfolding dispatch dispatch_scalar dispatch_sized
    arr-header fix n rest out fits = unfold dispatch in ground arith
    arr-header h8 n rest out fits = elim fits [ ]
    arr-header h16 n rest out fits = with_length_lem 2 (decode_array lib c next) n rest out fits
    arr-header h32 n rest out fits = with_length_lem 4 (decode_array lib c next) n rest out fits

    pub dict-header :
        (h : Header) (n : ℕ) (rest out : Bytes)
        → Fits 16 0 h n
        → enter (header 0x80 0 0xde 0xdf h n ++ rest) out ≡ decode_map lib c next n (io_of rest out)
    unfolding dispatch dispatch_scalar dispatch_sized
    dict-header fix n rest out fits = unfold dispatch in ground arith
    dict-header h8 n rest out fits = elim fits [ ]
    dict-header h16 n rest out fits = with_length_lem 2 (decode_map lib c next) n rest out fits
    dict-header h32 n rest out fits = with_length_lem 4 (decode_map lib c next) n rest out fits

    pub ext-header :
        (h : Header) (n : ℕ) (rest out : Bytes)
        → ExtFits h n
        → enter (ext_header h n ++ rest) out ≡ decode_extension lib c n (io_of rest out)
    unfolding dispatch dispatch_scalar dispatch_sized dispatch_tail
    ext-header fix n rest out fits = elim fits [
      | inl e ↦ rw e
      | inr (inl e) ↦ rw e
      | inr (inr (inl e)) ↦ rw e
      | inr (inr (inr (inl e))) ↦ rw e
      | inr (inr (inr (inr e))) ↦ rw e
    ]
    ext-header h8 n rest out fits = with_length_lem 1 (decode_extension lib c) n rest out fits
    ext-header h16 n rest out fits = with_length_lem 2 (decode_extension lib c) n rest out fits
    ext-header h32 n rest out fits = with_length_lem 4 (decode_extension lib c) n rest out fits

    pub enter-fix_uint :
        (n : ℕ) (rest out : Bytes)
        → n < 128
        → enter (n ∷ rest) out ≡ done (io_of rest (out ++ decimal n))
    unfolding dispatch
    enter-fix_uint n rest out h = ground arith

    pub enter-fix_int :
        (n : ℕ) (rest out : Bytes)
        → n < 32
        → enter ((0xff - n) ∷ rest) out ≡ done (io_of rest (out ++ decimal_ℤ (negsuc n)))
    unfolding dispatch dispatch_scalar dispatch_sized dispatch_tail
    enter-fix_int n rest out h = ground arith
