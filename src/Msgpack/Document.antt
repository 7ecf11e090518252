-- ===== src/Msgpack/Document.antt =====
-- MessagePack documents as their format describes them, independent of the converter: what each
-- document is written as on the wire, and the text that stands for it.
use kettlingar_go.Prelude.{
  ℕ, suc, ◌+◌, ◌-◌, ◌*◌, ◌^◌, ◌<◌, ◌≡◌, ◌≢◌, Bool, true, false, Bytes, [], ◌∷◌, ◌++◌, length, codes,
  if◌then◌else◌, ◌==◌, ◌⊎◌, ℤ, pos, negsuc, none, some,
}
use kettlingar_go.Text.Decimal.{decimal, decimal_ℤ}
use kettlingar_go.Text.Hex.{hex}
use kettlingar_go.Text.Quote.{quote}
use kettlingar_go.Msgpack.Reader.{to_big_endian}
use kettlingar_go.Msgpack.Convert.{Printers, MsgpackJsonConverter, extension_name}

pub data Width : Type 0 where
  w8 w16 w32 w64 : Width

-- How a length is written: in the first byte, or in 1, 2 or 4 bytes behind it.
pub data Header : Type 0 where
  fix h8 h16 h32 : Header

mutual
  pub data Doc : Type 0 where
    nil : Doc
    bool : Bool → Doc
    fix_uint : ℕ → Doc
    fix_int : ℕ → Doc
    uint : Width → ℕ → Doc
    sint : Width → ℤ → Doc
    float32 : ℕ → Doc
    float64 : ℕ → Doc
    str : Header → Bytes → Doc
    bin : Header → Bytes → Doc
    arr : Header → Items → Doc
    dict : Header → Pairs → Doc
    ext : Header → ℤ → Bytes → Doc
    time32 : ℕ → Doc
    time64 : ℕ → ℕ → Doc
    time96 : ℕ → ℤ → Doc

  pub data Items : Type 0 where
    no_items : Items
    item : Doc → Items → Items

  pub data Pairs : Type 0 where
    no_pairs : Pairs
    pair : Doc → Doc → Pairs → Pairs

abbrev pub bytes_of : Width → ℕ
bytes_of w8 = 1
bytes_of w16 = 2
bytes_of w32 = 4
bytes_of w64 = 8

-- 2 ^ (bits - 1).
abbrev pub half_of : Width → ℕ
half_of w8 = 0x80
half_of w16 = 0x8000
half_of w32 = 0x8000_0000
half_of w64 = 0x8000_0000_0000_0000

-- Two's complement, of `half` twice over.
abbrev pub pattern_of : ℕ → ℤ → ℕ
pattern_of half (pos n) = n
pattern_of half (negsuc n) = 2 * half - 1 - n

abbrev pub InRange : ℕ → ℤ → Type 0
InRange half (pos n) = n < half
InRange half (negsuc n) = n < half

abbrev uint_prefix : Width → ℕ
uint_prefix w8 = 0xcc
uint_prefix w16 = 0xcd
uint_prefix w32 = 0xce
uint_prefix w64 = 0xcf

abbrev sint_prefix : Width → ℕ
sint_prefix w8 = 0xd0
sint_prefix w16 = 0xd1
sint_prefix w32 = 0xd2
sint_prefix w64 = 0xd3

-- First bytes for a fixed length and for lengths of 1, 2 and 4 bytes.
abbrev pub header : ℕ → ℕ → ℕ → ℕ → Header → ℕ → Bytes
header f a b c fix n = (f + n) ∷ []
header f a b c h8 n = a ∷ to_big_endian 1 n
header f a b c h16 n = b ∷ to_big_endian 2 n
header f a b c h32 n = c ∷ to_big_endian 4 n

-- Fixed-length extensions come in five sizes.
abbrev pub ext_header : Header → ℕ → Bytes
ext_header fix n =
    (if n == 1
      then 0xd4
      else if n == 2
      then 0xd5
      else if n == 4
      then 0xd6
      else if n == 8
      then 0xd7
      else 0xd8)
    ∷ []
ext_header h8 n = 0xc7 ∷ to_big_endian 1 n
ext_header h16 n = 0xc8 ∷ to_big_endian 2 n
ext_header h32 n = 0xc9 ∷ to_big_endian 4 n

abbrev pub count_items : Items → ℕ
count_items no_items = 0
count_items (item d xs) = suc (count_items xs)

abbrev pub count_pairs : Pairs → ℕ
count_pairs no_pairs = 0
count_pairs (pair k v ps) = suc (count_pairs ps)

-- The document on the wire.
unfoldable mutual
  pub encode : Doc → Bytes
  encode nil = 0xc0 ∷ []
  encode (bool false) = 0xc2 ∷ []
  encode (bool true) = 0xc3 ∷ []
  encode (fix_uint n) = n ∷ []
  encode (fix_int n) = (0xff - n) ∷ []
  encode (uint w n) = uint_prefix w ∷ to_big_endian (bytes_of w) n
  encode (sint w z) = sint_prefix w ∷ to_big_endian (bytes_of w) (pattern_of (half_of w) z)
  encode (float32 bits) = 0xca ∷ to_big_endian 4 bits
  encode (float64 bits) = 0xcb ∷ to_big_endian 8 bits
  encode (str h s) = header 0xa0 0xd9 0xda 0xdb h (length s) ++ s
  encode (bin h s) = header 0 0xc4 0xc5 0xc6 h (length s) ++ s
  encode (arr h xs) = header 0x90 0 0xdc 0xdd h (count_items xs) ++ encode_items xs
  encode (dict h ps) = header 0x80 0 0xde 0xdf h (count_pairs ps) ++ encode_pairs ps
  encode (ext h typ s) = ext_header h (length s) ++ (pattern_of 0x80 typ ∷ s)
  encode (time32 sec) = 0xd6 ∷ 0xff ∷ to_big_endian 4 sec
  encode (time64 nsec sec) = 0xd7 ∷ 0xff ∷ to_big_endian 8 (nsec * 2 ^ 34 + sec)
  encode (time96 nsec sec) =
      0xc7
      ∷ 12
      ∷ 0xff
      ∷ (to_big_endian 4 nsec ++ to_big_endian 8 (pattern_of 0x8000_0000_0000_0000 sec))

  pub encode_items : Items → Bytes
  encode_items no_items = []
  encode_items (item d xs) = encode d ++ encode_items xs

  pub encode_pairs : Pairs → Bytes
  encode_pairs no_pairs = []
  encode_pairs (pair k v ps) = encode k ++ (encode v ++ encode_pairs ps)

-- Which lengths a header can carry; a first byte with no length in it carries none.
abbrev pub Fits : ℕ → ℕ → Header → ℕ → Type 0
Fits f a fix n = n < f
Fits f a h8 n = n < a
Fits f a h16 n = n < 256 ^ 2
Fits f a h32 n = n < 256 ^ 4

abbrev pub ExtFits : Header → ℕ → Type 0
ExtFits fix n = (n ≡ 1) ⊎ (n ≡ 2) ⊎ (n ≡ 4) ⊎ (n ≡ 8) ⊎ (n ≡ 16)
ExtFits h8 n = n < 256
ExtFits h16 n = n < 256 ^ 2
ExtFits h32 n = n < 256 ^ 4

-- What the format can express. Extensions of type -1 are the timestamps.
unfoldable mutual
  pub IsLegal : Doc → Type 0
  IsLegal nil = Unit
  IsLegal (bool b) = Unit
  IsLegal (fix_uint n) = n < 128
  IsLegal (fix_int n) = n < 32
  IsLegal (uint w n) = n < 256 ^ bytes_of w
  IsLegal (sint w z) = InRange (half_of w) z
  IsLegal (float32 bits) = bits < 256 ^ 4
  IsLegal (float64 bits) = bits < 256 ^ 8
  IsLegal (str h s) = Fits 32 256 h (length s)
  IsLegal (bin h s) = Fits 0 256 h (length s)
  IsLegal (arr h xs) = Fits 16 0 h (count_items xs) × AreLegal xs
  IsLegal (dict h ps) = Fits 16 0 h (count_pairs ps) × PairsAreLegal ps
  IsLegal (ext h typ s) = ExtFits h (length s) × InRange 0x80 typ × (typ ≢ negsuc 0)
  IsLegal (time32 sec) = sec < 256 ^ 4
  IsLegal (time64 nsec sec) = (nsec < 2 ^ 30) × (sec < 2 ^ 34)
  IsLegal (time96 nsec sec) = (nsec < 256 ^ 4) × InRange 0x8000_0000_0000_0000 sec

  pub AreLegal : Items → Type 0
  AreLegal no_items = Unit
  AreLegal (item d xs) = IsLegal d × AreLegal xs

  pub PairsAreLegal : Pairs → Type 0
  PairsAreLegal no_pairs = Unit
  PairsAreLegal (pair k v ps) = IsLegal k × IsLegal v × PairsAreLegal ps

module _ (lib : Printers) (c : MsgpackJsonConverter) where
  -- An extension's type by its name, or by its number.
  abbrev pub render_type : ℤ → Bytes
  render_type typ = elim (extension_name c.extension_names typ) [
    | some name ↦ quote lib.is_print name
    | none ↦ decimal_ℤ typ
  ]

  -- The text for a document. In front of an element or a pair that is not the first stands ", ".
  unfoldable mutual
    pub render : Doc → Bytes
    render nil = codes "null"
    render (bool false) = codes "false"
    render (bool true) = codes "true"
    render (fix_uint n) = decimal n
    render (fix_int n) = decimal_ℤ (negsuc n)
    render (uint w n) = decimal n
    render (sint w z) = decimal_ℤ z
    render (float32 bits) = lib.float32_g bits
    render (float64 bits) = lib.float64_g bits
    render (str h s) = quote lib.is_print s
    render (bin h s) = b'"' ∷ (hex s ++ b'"' ∷ [])
    render (arr h xs) = b'[' ∷ (render_items true xs ++ b']' ∷ [])
    render (dict h ps) = b'{' ∷ (render_pairs true ps ++ b'}' ∷ [])
    render (ext h typ s) = b'[' ∷ (render_type typ ++ (codes ", \"" ++ (hex s ++ codes "\"]")))
    render (time32 sec) = quote lib.is_print (lib.rfc3339_nano (pos sec) (pos 0))
    render (time64 nsec sec) = quote lib.is_print (lib.rfc3339_nano (pos sec) (pos nsec))
    render (time96 nsec sec) = quote lib.is_print (lib.rfc3339_nano sec (pos nsec))

    pub render_items : Bool → Items → Bytes
    render_items first no_items = []
    render_items first (item d xs) =
        (if first then [] else codes ", ") ++ (render d ++ render_items false xs)

    pub render_pairs : Bool → Pairs → Bytes
    render_pairs first no_pairs = []
    render_pairs first (pair k v ps) =
        (if first then [] else codes ", ")
        ++ (render k ++ (codes ": " ++ (render v ++ render_pairs false ps)))
