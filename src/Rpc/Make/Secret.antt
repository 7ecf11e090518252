-- ===== src/Rpc/Make/Secret.antt =====
-- generateSecret of kettlingar/service.go: base64.URLEncoding without its padding.
use kettlingar_go.Prelude.{
  ℕ, ◌+◌, ◌-◌, ◌*◌, ◌/◌, ◌%◌, ◌<◌, ◌≡◌, ◌≢◌, refl, ap, ap₂, ◌∙◌, arith, All, [], ◌∷◌, ◌++◌, length,
  ltb, ◌==◌, if◌then◌else◌, Bytes, Option, none, some,
}
use kettlingar_go.Text.Search.{Lacks, trim_right}

abbrev pub url_digit : ℕ → ℕ
url_digit d =
    if ltb d 26
    then b'A' + d
    else if ltb d 52
    then b'a' + (d - 26)
    else if ltb d 62
    then b'0' + (d - 52)
    else if d == 62
    then b'-'
    else b'_'

unfoldable pub encode_url : Bytes → Bytes
encode_url [] = []
encode_url (a ∷ []) = url_digit (a / 4) ∷ url_digit (a % 4 * 16) ∷ b'=' ∷ b'=' ∷ []
encode_url (a ∷ b ∷ []) =
    url_digit (a / 4) ∷ url_digit (a % 4 * 16 + b / 16) ∷ url_digit (b % 16 * 4) ∷ b'=' ∷ []
encode_url (a ∷ b ∷ c ∷ s) =
    url_digit (a / 4)
    ∷ url_digit (a % 4 * 16 + b / 16)
    ∷ url_digit (b % 16 * 4 + c / 64)
    ∷ url_digit (c % 64)
    ∷ encode_url s

-- The argument is what rand.Read makes of 32 bytes, none for an error.
unfoldable pub generate_secret : Option Bytes → Option Bytes
unfolding encode_url
generate_secret none = none
generate_secret (some b) = some (trim_right b'=' (encode_url b))

abbrev pub url_value : ℕ → ℕ
url_value c =
    if c == b'-'
    then 62
    else if c == b'_'
    then 63
    else if ltb c b'A'
    then c - b'0' + 52
    else if ltb c b'a'
    then c - b'A'
    else c - b'a' + 26

-- The bytes that base64 without padding stands for, as RFC 4648 has them.
abbrev pub decode_url : Bytes → Bytes
decode_url (w ∷ x ∷ []) = (url_value w * 4 + url_value x / 16) ∷ []
decode_url (w ∷ x ∷ y ∷ []) =
    (url_value w * 4 + url_value x / 16) ∷ (url_value x % 16 * 16 + url_value y / 4) ∷ []
decode_url (w ∷ x ∷ y ∷ z ∷ s) =
    (url_value w * 4 + url_value x / 16)
    ∷ (url_value x % 16 * 16 + url_value y / 4)
    ∷ (url_value y % 4 * 64 + url_value z)
    ∷ decode_url s
decode_url _ = []

value-digit : (d : ℕ) → d < 64 → url_value (url_digit d) ≡ d
value-digit d h = ground arith

-- A text without padding, or a padding behind one.
abbrev pub unpadded : Bytes → Bytes
unpadded [] = []
unpadded (a ∷ []) = url_digit (a / 4) ∷ url_digit (a % 4 * 16) ∷ []
unpadded (a ∷ b ∷ []) =
    url_digit (a / 4) ∷ url_digit (a % 4 * 16 + b / 16) ∷ url_digit (b % 16 * 4) ∷ []
unpadded (a ∷ b ∷ c ∷ s) =
    url_digit (a / 4)
    ∷ url_digit (a % 4 * 16 + b / 16)
    ∷ url_digit (b % 16 * 4 + c / 64)
    ∷ url_digit (c % 64)
    ∷ unpadded s

digit-plain : (d : ℕ) → (url_digit d ≢ b'=') × (url_digit d ≢ b'/')
digit-plain d = ground arith

All-unpadded : (P : ℕ → Type 0) (b : Bytes) → ((d : ℕ) → P (url_digit d)) → All P (unpadded b)
All-unpadded P [] h = tt
All-unpadded P (a ∷ []) h = (h (a / 4), (h (a % 4 * 16), tt))
All-unpadded P (a ∷ b ∷ []) h = (h (a / 4), (h (a % 4 * 16 + b / 16), (h (b % 16 * 4), tt)))
All-unpadded P (a ∷ b ∷ c ∷ s) h = (
  h (a / 4),
  (h (a % 4 * 16 + b / 16), (h (b % 16 * 4 + c / 64), (h (c % 64), All-unpadded P s h))),
)

abbrev padding : Bytes → Bytes
padding [] = []
padding (a ∷ []) = b'=' ∷ b'=' ∷ []
padding (a ∷ b ∷ []) = b'=' ∷ []
padding (a ∷ b ∷ c ∷ s) = padding s

encode_url-unpadded : (b : Bytes) → encode_url b ≡ unpadded b ++ padding b
unfolding encode_url
encode_url-unpadded [] = refl
encode_url-unpadded (a ∷ []) = refl
encode_url-unpadded (a ∷ b ∷ []) = refl
encode_url-unpadded (a ∷ b ∷ c ∷ s) = rw (encode_url-unpadded s) refl

trim_right-padding : (b : Bytes) → trim_right b'=' (padding b) ≡ []
trim_right-padding [] = refl
trim_right-padding (a ∷ []) = refl
trim_right-padding (a ∷ b ∷ []) = refl
trim_right-padding (a ∷ b ∷ c ∷ s) = trim_right-padding s

trim_right-append :
    (s pad : Bytes) → Lacks b'=' s → trim_right b'=' pad ≡ [] → trim_right b'=' (s ++ pad) ≡ s
trim_right-append [] pad h e = e
trim_right-append (c ∷ []) pad h e = rw e (ground (arith, h.0))
trim_right-append (c ∷ d ∷ s) pad h e = rw (trim_right-append (d ∷ s) pad h.1 e) refl

length-unpadded : (b : Bytes) → length (unpadded b) ≡ (length b * 4 + 2) / 3
length-unpadded [] = refl
length-unpadded (a ∷ []) = refl
length-unpadded (a ∷ b ∷ []) = refl
length-unpadded (a ∷ b ∷ c ∷ s) = omega (arith, length-unpadded s)

first_byte : (a x : ℕ) → a < 256 → x < 16 → a / 4 * 4 + (a % 4 * 16 + x) / 16 ≡ a
first_byte a x h g = omega arith

second_byte :
    (a b y : ℕ) → b < 256 → y < 4 → (a % 4 * 16 + b / 16) % 16 * 16 + (b % 16 * 4 + y) / 4 ≡ b
second_byte a b y h g = omega arith

third_byte : (b c : ℕ) → c < 256 → (b % 16 * 4 + c / 64) % 4 * 64 + c % 64 ≡ c
third_byte b c h = omega arith

decode_url-unpadded : (b : Bytes) → All (λ c. c < 256) b → decode_url (unpadded b) ≡ b
decode_url-unpadded [] h = refl
decode_url-unpadded (a ∷ []) h =
    rw (value-digit (a / 4) (omega (arith, h.0)), value-digit (a % 4 * 16) (omega arith))
      (ap (λ x. x ∷ []) (omega (arith, h.0)))
decode_url-unpadded (a ∷ b ∷ []) h =
    rw
      (
        value-digit (a / 4) (omega (arith, h.0)),
        value-digit (a % 4 * 16 + b / 16) (omega (arith, h.1.0)),
        value-digit (b % 16 * 4) (omega arith),
      )
      (ap₂ (λ x y. x ∷ y ∷ []) (first_byte a (b / 16) h.0 (omega (arith, h.1.0)))
        (omega (arith, h.1.0)))
decode_url-unpadded (a ∷ b ∷ c ∷ s) h =
    rw
      (
        value-digit (a / 4) (omega (arith, h.0)),
        value-digit (a % 4 * 16 + b / 16) (omega (arith, h.1.0)),
        value-digit (b % 16 * 4 + c / 64) (omega (arith, h.1.1.0)),
        value-digit (c % 64) (omega arith),
        decode_url-unpadded s h.1.1.1,
      )
      (ap₂ (λ x t. x ∷ t) (first_byte a (b / 16) h.0 (omega (arith, h.1.0)))
        (ap₂ (λ y z. y ∷ z ∷ s) (second_byte a b (c / 64) h.1.0 (omega (arith, h.1.1.0)))
          (third_byte b c h.1.1.0)))

generate_secret-unpadded : (b : Bytes) → generate_secret (some b) ≡ some (unpadded b)
unfolding generate_secret
generate_secret-unpadded b = ap some (
    ap (trim_right b'=') (encode_url-unpadded b)
    ∙ trim_right-append (unpadded b) (padding b)
        (All-unpadded (λ c. c ≢ b'=') b (λ d. (digit-plain d).0)) (trim_right-padding b))

-- What all digits are, the characters of a generated secret are.
pub generate_secret-All :
    (P : ℕ → Type 0) (b : Bytes)
    → ((d : ℕ) → P (url_digit d))
    → (secret : Bytes) × (generate_secret (some b) ≡ some secret) × All P secret
generate_secret-All P b h = (unpadded b, generate_secret-unpadded b, All-unpadded P b h)

-- From 32 random bytes generateSecret makes a secret of 43 characters without a slash, from which
-- the bytes can be read back: different bytes make different secrets.
pub generate_secret_lem :
    (b : Bytes)
    → length b ≡ 32
    → All (λ c. c < 256) b
    → (secret : Bytes) × (generate_secret (some b) ≡ some secret)
      × (length secret ≡ 43)
      × Lacks b'/' secret
      × (decode_url secret ≡ b)
generate_secret_lem b size bytes = (
  unpadded b,
  generate_secret-unpadded b,
  omega (arith, length-unpadded b, size),
  All-unpadded (λ c. c ≢ b'/') b (λ d. (digit-plain d).1),
  decode_url-unpadded b bytes,
)
