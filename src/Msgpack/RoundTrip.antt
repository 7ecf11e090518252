-- ===== src/Msgpack/RoundTrip.antt =====
-- decodeNext writes, for every legal document on the wire, the text that stands for it.
pub mod Headers
mod Scalars
use native.Mathlib.Nat.{add_assoc}
use kettlingar_go.Prelude.{
  ℕ, zero, suc, ◌+◌, ◌-◌, ◌<◌, ◌≤◌, ◌≡◌, refl, sym, ap, ◌∙◌, arith, Bool, true, false, Bytes, [],
  ◌∷◌, ◌++◌, length, length-append, append_assoc, append-nil, codes, if◌then◌else◌,
}
use kettlingar_go.Msgpack.Reader.{Io, Outcome, done, after, print, length-to_big_endian}
use kettlingar_go.Msgpack.Convert.{
  Printers, MsgpackJsonConverter, dispatch, dispatch_scalar, array_items, map_items, decode_array,
  decode_map, decode_next,
}
use kettlingar_go.Msgpack.Document.{
  Doc, nil, bool, fix_uint, fix_int, uint, sint, float32, float64, str, bin, arr, dict, ext, time32,
  time64, time96, Items, no_items, item, Pairs, no_pairs, pair, Header, fix, h8, h16, h32, header,
  encode, encode_items, encode_pairs, count_items, count_pairs, IsLegal, AreLegal, PairsAreLegal,
  render, render_items, render_pairs,
}
use Headers.{
  io_of, enter, str-header, bin-header, arr-header, dict-header, enter-fix_uint, enter-fix_int,
  read_and_print_str_lem, read_and_print_bin_lem,
}
use Scalars.{
  Reads, enter-uint, enter-sint, enter-float32, enter-float64, enter-ext, enter-time32,
  enter-time64, enter-time96,
}

pub header_pos : (f a b c : ℕ) (h : Header) (n : ℕ) → 0 < length (header f a b c h n)
header_pos f a b c fix n = omega arith
header_pos f a b c h8 n = omega arith
header_pos f a b c h16 n = omega arith
header_pos f a b c h32 n = omega arith

header_pos_append :
    (f a b c : ℕ) (h : Header) (n : ℕ) (body : Bytes) → 0 < length (header f a b c h n ++ body)
header_pos_append f a b c h n body =
    omega (arith, length-append (header f a b c h n) body, header_pos f a b c h n)

-- No document is written as nothing.
pub encode_pos : (d : Doc) → 0 < length (encode d)
unfolding encode
encode_pos (bool true) = omega arith
encode_pos (bool false) = omega arith
encode_pos (str h s) = header_pos_append 0xa0 0xd9 0xda 0xdb h (length s) s
encode_pos (bin h s) = header_pos_append 0 0xc4 0xc5 0xc6 h (length s) s
encode_pos (arr h xs) = header_pos_append 0x90 0 0xdc 0xdd h (count_items xs) (encode_items xs)
encode_pos (dict h ps) = header_pos_append 0x80 0 0xde 0xdf h (count_pairs ps) (encode_pairs ps)
encode_pos (ext fix typ s) = omega arith
encode_pos (ext h8 typ s) = omega arith
encode_pos (ext h16 typ s) = omega arith
encode_pos (ext h32 typ s) = omega arith
encode_pos _ = omega arith

abbrev pub separator : Bool → Bytes
separator first = if first then [] else codes ", "

sub_lem : (n : ℕ) → suc n - 1 ≡ n
sub_lem n = omega arith

-- Behind a header there is less than in the whole.
pub shorter :
    (f a b c : ℕ) (h : Header) (n : ℕ) (body : Bytes) (fuel : ℕ)
    → length (header f a b c h n ++ body) ≤ fuel
    → length body < fuel
shorter f a b c h n body fuel le =
    omega (arith, length-append (header f a b c h n) body, header_pos f a b c h n)

-- The bracket behind the elements.
closed :
    (o : Outcome) (out text : Bytes) (rest close : Bytes)
    → o ≡ done (io_of rest (out ++ text))
    → after o (λ io. done (print close io)) ≡ done (io_of rest ((out ++ text) ++ close))
closed o out text rest close e = rw e

module _ (lib : Printers) (c : MsgpackJsonConverter) where
  pub next-enter :
      (fuel : ℕ) (input out : Bytes)
      → 0 < fuel
      → decode_next lib c fuel (io_of input out)
        ≡ enter lib c (decode_next lib c (fuel - 1)) input out
  unfolding decode_next
  next-enter zero input out h = elim h [ ]
  next-enter (suc fuel) [] out h = refl
  next-enter (suc fuel) (p ∷ rest) out h = rw (sub_lem fuel) refl

  module _ (next : Io → Outcome) where
    pub enter-str : (h : Header) (s : Bytes) → Reads lib c next (str h s)
    unfolding encode IsLegal render
    enter-str h s rest out fits =
        rw append_assoc (str-header lib c next h (length s) (s ++ rest) out fits)
        ∙ read_and_print_str_lem lib c s rest out

    pub enter-bin : (h : Header) (s : Bytes) → Reads lib c next (bin h s)
    unfolding encode IsLegal render
    enter-bin h s rest out fits =
        rw append_assoc (bin-header lib c next h (length s) (s ++ rest) out fits)
        ∙ read_and_print_bin_lem lib c s rest out

    pub enter-nil : Reads lib c next nil
    unfolding encode render dispatch dispatch_scalar
    enter-nil rest out h = refl

    pub enter-bool : (b : Bool) → Reads lib c next (bool b)
    unfolding encode render dispatch dispatch_scalar
    enter-bool true rest out h = refl
    enter-bool false rest out h = refl

  pub separate :
      (first : Bool) (input out : Bytes)
      → (if first then io_of input out else print (codes ", ") (io_of input out))
        ≡ io_of input (out ++ separator first)
  separate true input out = rw append-nil
  separate false input out = refl

  -- A document where an element stands, with the separator in front of it.
  pub one :
      (first : Bool) (input more out text : Bytes) (fuel : ℕ)
      → 0 < fuel
      → enter lib c (decode_next lib c (fuel - 1)) input (out ++ separator first)
        ≡ done (io_of more ((out ++ separator first) ++ text))
      → decode_next lib c fuel
          (if first then io_of input out else print (codes ", ") (io_of input out))
        ≡ done (io_of more ((out ++ separator first) ++ text))
  one first input more out text fuel h e =
      rw (separate first input out) (next-enter fuel input _ h ∙ e)

  mutual
    unfolding encode encode_items encode_pairs IsLegal AreLegal PairsAreLegal render render_items
        render_pairs decode_array decode_map array_items map_items

    pub doc-enter :
        (d : Doc) (fuel : ℕ) (rest out : Bytes)
        → length (encode d) ≤ fuel
        → IsLegal d
        → enter lib c (decode_next lib c fuel) (encode d ++ rest) out
          ≡ done (io_of rest (out ++ render lib c d))
    doc-enter nil fuel rest out f h = enter-nil _ rest out h
    doc-enter (bool b) fuel rest out f h = enter-bool _ b rest out h
    doc-enter (fix_uint n) fuel rest out f h = enter-fix_uint lib c _ n rest out h
    doc-enter (fix_int n) fuel rest out f h = enter-fix_int lib c _ n rest out h
    doc-enter (uint w n) fuel rest out f h = enter-uint lib c _ w n rest out h
    doc-enter (sint w z) fuel rest out f h = enter-sint lib c _ w z rest out h
    doc-enter (float32 bits) fuel rest out f h = enter-float32 lib c _ bits rest out h
    doc-enter (float64 bits) fuel rest out f h = enter-float64 lib c _ bits rest out h
    doc-enter (str hd s) fuel rest out f h = enter-str _ hd s rest out h
    doc-enter (bin hd s) fuel rest out f h = enter-bin _ hd s rest out h
    doc-enter (ext hd typ s) fuel rest out f h = enter-ext lib c _ hd typ s rest out h
    doc-enter (time32 sec) fuel rest out f h = enter-time32 lib c _ sec rest out h
    doc-enter (time64 nsec sec) fuel rest out f h = enter-time64 lib c _ nsec sec rest out h
    doc-enter (time96 nsec sec) fuel rest out f h = enter-time96 lib c _ nsec sec rest out h
    doc-enter (arr hd xs) fuel rest out f h =
        rw append_assoc (
          arr-header lib c (decode_next lib c fuel) hd (count_items xs) (encode_items xs ++ rest)
            out h.0)
        ∙ closed _ (out ++ codes "[") (render_items lib c true xs) rest (codes "]") (
            items-encode xs fuel true rest (out ++ codes "[")
              (shorter 0x90 0 0xdc 0xdd hd (count_items xs) (encode_items xs) fuel f) h.1)
        ∙ simp append_assoc
    doc-enter (dict hd ps) fuel rest out f h =
        rw append_assoc (
          dict-header lib c (decode_next lib c fuel) hd (count_pairs ps) (encode_pairs ps ++ rest)
            out h.0)
        ∙ closed _ (out ++ codes "{") (render_pairs lib c true ps) rest (codes "}") (
            pairs-encode ps fuel true rest (out ++ codes "{")
              (shorter 0x80 0 0xde 0xdf hd (count_pairs ps) (encode_pairs ps) fuel f) h.1)
        ∙ simp append_assoc

    pub items-encode :
        (xs : Items) (fuel : ℕ) (first : Bool) (rest out : Bytes)
        → length (encode_items xs) < fuel
        → AreLegal xs
        → array_items lib c
            (decode_next lib c fuel)
            first
            (count_items xs)
            (io_of (encode_items xs ++ rest) out)
          ≡ done (io_of rest (out ++ render_items lib c first xs))
    items-encode no_items fuel first rest out f h = rw append-nil
    items-encode (item d xs) fuel first rest out f h =
        let more = encode_items xs ++ rest in
        let len = length-append (encode d) (encode_items xs) in
        let out' = (out ++ separator first) ++ render lib c d in
        rw append_assoc (
          ap (λ o. after o (array_items lib c (decode_next lib c fuel) false (count_items xs)))
            (one first (encode d ++ more) more out (render lib c d) fuel (omega arith)
              (doc-enter d (fuel - 1) more (out ++ separator first) (omega (arith, len)) h.0))
          ∙ items-encode xs fuel false rest out' (omega (arith, len)) h.1
          ∙ simp append_assoc)

    pairs-encode :
        (ps : Pairs) (fuel : ℕ) (first : Bool) (rest out : Bytes)
        → length (encode_pairs ps) < fuel
        → PairsAreLegal ps
        → map_items lib c
            (decode_next lib c fuel)
            first
            (count_pairs ps)
            (io_of (encode_pairs ps ++ rest) out)
          ≡ done (io_of rest (out ++ render_pairs lib c first ps))
    pairs-encode no_pairs fuel first rest out f h = rw append-nil
    pairs-encode (pair k v ps) fuel first rest out f h =
        let tail = encode_pairs ps ++ rest in
        let more = encode v ++ tail in
        let len = length-append (encode k) (encode v ++ encode_pairs ps) in
        let len' = length-append (encode v) (encode_pairs ps) in
        let out1 = (out ++ separator first) ++ render lib c k in
        let out2 = (out1 ++ codes ": ") ++ render lib c v in
        rw (append_assoc, append_assoc)
          (ap
              (λ o. after o λ io.
                after (decode_next lib c fuel (print (codes ": ") io))
                  (map_items lib c (decode_next lib c fuel) false (count_pairs ps)))
              (one first (encode k ++ more) more out (render lib c k) fuel (omega arith)
                (doc-enter k (fuel - 1) more (out ++ separator first) (omega (arith, len)) h.0))
            ∙ ap (λ o. after o (map_items lib c (decode_next lib c fuel) false (count_pairs ps)))
                (next-enter fuel more (out1 ++ codes ": ") (omega arith)
                  ∙ doc-enter v (fuel - 1) tail (out1 ++ codes ": ") (omega (arith, len, len')) h.1)
            ∙ pairs-encode ps fuel false rest out2 (omega (arith, len, len')) h.2
            ∙ simp append_assoc)

  -- A legal document on the wire, with anything behind it, is read to its end and its text is
  -- written, given more fuel than it has bytes.
  pub decode_next-encode :
      (d : Doc) (fuel : ℕ) (rest out : Bytes)
      → length (encode d) < fuel
      → IsLegal d
      → decode_next lib c fuel (io_of (encode d ++ rest) out)
        ≡ done (io_of rest (out ++ render lib c d))
  decode_next-encode d fuel rest out f h =
      next-enter fuel _ out (omega arith) ∙ doc-enter d (fuel - 1) rest out (omega arith) h
