-- ===== src/Text/Quote.antt =====
-- `%q`: strconv.Quote. Text is decoded as UTF-8; which runes above ASCII are printable
-- (unicode.IsPrint, a generated table) is the parameter `is_print`.
use kettlingar_go.Prelude.{
  ℕ, zero, suc, ◌+◌, ◌-◌, ◌*◌, ◌/◌, ◌%◌, ◌≡◌, refl, Bytes, [], ◌∷◌, ◌++◌, ltb, leb, ◌==◌,
  if◌then◌else◌, Bool, true, false, ◌&&◌, ◌||◌, codes,
}
use kettlingar_go.Text.Hex.{hex_digit}

abbrev within : ℕ → ℕ → ℕ → Bool
within lo hi c = leb lo c && leb c hi

abbrev is_tail : ℕ → Bool
is_tail = within 0x80 0xbf

-- The least and the greatest second byte behind the first byte `c` of a longer rune.
abbrev second_ok : ℕ → ℕ → Bool
second_ok c d =
    if c == 0xe0
    then within 0xa0 0xbf d
    else if c == 0xed
    then within 0x80 0x9f d
    else if c == 0xf0
    then within 0x90 0xbf d
    else if c == 0xf4
    then within 0x80 0x8f d
    else is_tail d

-- A rune with its width; `invalid` is utf8.RuneError at width 1.
pub data Decoded : Type 0 where
  rune : ℕ → ℕ → Decoded
  invalid : Decoded

decode_two : ℕ → Bytes → Decoded
decode_two c (d ∷ ds) = if is_tail d then rune ((c - 0xc0) * 64 + (d - 0x80)) 2 else invalid
decode_two c [] = invalid

decode_three : ℕ → Bytes → Decoded
decode_three c (d ∷ e ∷ ds) =
    if second_ok c d && is_tail e
    then rune (((c - 0xe0) * 64 + (d - 0x80)) * 64 + (e - 0x80)) 3
    else invalid
decode_three c _ = invalid

decode_four : ℕ → Bytes → Decoded
decode_four c (d ∷ e ∷ f ∷ ds) =
    if second_ok c d && is_tail e && is_tail f
    then rune ((((c - 0xf0) * 64 + (d - 0x80)) * 64 + (e - 0x80)) * 64 + (f - 0x80)) 4
    else invalid
decode_four c _ = invalid

-- utf8.DecodeRuneInString on a text that begins with `c`.
pub decode_rune : ℕ → Bytes → Decoded
unfolding decode_two decode_three decode_four
decode_rune c cs =
    if ltb c 0x80
    then rune c 1
    else if within 0xc2 0xdf c
    then decode_two c cs
    else if within 0xe0 0xef c
    then decode_three c cs
    else if within 0xf0 0xf4 c
    then decode_four c cs
    else invalid

abbrev hex_byte : ℕ → Bytes
hex_byte c = hex_digit (c / 16) ∷ hex_digit (c % 16) ∷ []

-- Runes of ASCII that print as themselves.
abbrev is_plain : ℕ → Bool
is_plain c = within 0x20 0x7e c

-- A rune of ASCII, as strconv's appendEscapedRune writes it between double quotes.
pub quote_ascii : ℕ → Bytes
quote_ascii c =
    if c == b'"' || c == b'\\'
    then b'\\' ∷ c ∷ []
    else if is_plain c
    then c ∷ []
    else if c == 7
    then codes "\\a"
    else if c == 8
    then codes "\\b"
    else if c == 12
    then codes "\\f"
    else if c == 10
    then codes "\\n"
    else if c == 13
    then codes "\\r"
    else if c == 9
    then codes "\\t"
    else if c == 11
    then codes "\\v"
    else b'\\' ∷ b'x' ∷ hex_byte c

-- A longer rune; `source` is the bytes that spell it.
quote_rune : Bool → ℕ → Bytes → Bytes
quote_rune printable r source =
    if printable
    then source
    else if ltb r 0x10000
    then b'\\' ∷ b'u' ∷ (hex_byte (r / 256) ++ hex_byte (r % 256))
    else b'\\'
      ∷ b'U'
      ∷ (hex_byte (r / 0x1000000)
          ++ hex_byte (r / 0x10000 % 256)
          ++ hex_byte (r / 256 % 256)
          ++ hex_byte (r % 256))

module _ (is_print : ℕ → Bool) where
  quote_at : (c : ℕ) → Bytes → Decoded → Bytes
  unfolding quote_ascii quote_rune
  quote_at c cs invalid = b'\\' ∷ b'x' ∷ hex_byte c
  quote_at c cs (rune r zero) = []
  quote_at c cs (rune r (suc zero)) = quote_ascii r
  quote_at c (d ∷ cs) (rune r (suc (suc zero))) = quote_rune (is_print r) r (c ∷ d ∷ [])
  quote_at c (d ∷ e ∷ cs) (rune r (suc (suc (suc zero)))) =
      quote_rune (is_print r) r (c ∷ d ∷ e ∷ [])
  quote_at c (d ∷ e ∷ f ∷ cs) (rune r w) = quote_rune (is_print r) r (c ∷ d ∷ e ∷ f ∷ [])
  quote_at c _ (rune r w) = []

  -- `skip` counts the bytes of the current rune that are already written.
  pub quote_from : ℕ → Bytes → Bytes
  unfolding quote_at decode_rune
  quote_from skip [] = []
  quote_from (suc skip) (c ∷ cs) = quote_from skip cs
  quote_from zero (c ∷ cs) =
      quote_at c cs (decode_rune c cs) ++ quote_from (extra (decode_rune c cs)) cs
    where
      extra : Decoded → ℕ
      extra invalid = 0
      extra (rune r w) = w - 1

  unfoldable pub quote : Bytes → Bytes
  unfolding quote_from
  quote s = b'"' ∷ (quote_from 0 s ++ b'"' ∷ [])

quoted_text : quote (λ r. true) (codes "a\"b\n") ≡ codes "\"a\\\"b\\n\""
unfolding quote
quoted_text = refl

quoted_bytes : quote (λ r. false) (0xc3 ∷ 0xa9 ∷ 0xff ∷ 1 ∷ []) ≡ codes "\"\\u00e9\\xff\\x01\""
unfolding quote
quoted_bytes = refl
